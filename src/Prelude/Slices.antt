-- ===== src/Prelude/Slices.antt =====
-- Parts of lists: what is taken, dropped, mapped and selected.
use Prim.Native.Nat.{ℕ, zero, suc, ◌≤◌, ◌<◌}
use mathlib.Core.Path.{◌≡◌, refl, ap}
use mathlib.Core.Bool.{Bool}
use mathlib.Core.Option.{some}
use mathlib.Core.List.{List, [], ◌∷◌, ◌++◌, map}
use native.Mathlib.Omega.{arith}
use event_driven_notificatio.Prelude.Lists.{length, take, drop, get_last?, select}

module _ {ℓ κ} {A : Type ℓ} {B : Type κ} (f : A → B) where
  pub length-map : (xs : List A) → length (map f xs) ≡ length xs
  length-map [] = refl
  length-map (x ∷ xs) = ap suc (length-map xs)

  pub take-map : (n : ℕ) (xs : List A) → take n (map f xs) ≡ map f (take n xs)
  take-map zero xs = refl
  take-map (suc n) [] = refl
  take-map (suc n) (x ∷ xs) = ap (λ ys. f x ∷ ys) (take-map n xs)

  pub map-take-drop : (n : ℕ) (xs : List A) → map f (take n xs) ++ map f (drop n xs) ≡ map f xs
  map-take-drop zero xs = refl
  map-take-drop (suc n) [] = refl
  map-take-drop (suc n) (x ∷ xs) = ap (λ ys. f x ∷ ys) (map-take-drop n xs)

  pub get_last?-map :
      (x : A) (xs : List A) → get_last? xs ≡ some x → get_last? (map f xs) ≡ some (f x)
  get_last?-map x [] e = cc
  get_last?-map x (y ∷ []) e = cc
  get_last?-map x (y ∷ z ∷ xs) e = get_last?-map x (z ∷ xs) e

module _ {ℓ} {A : Type ℓ} where
  pub take_all : (n : ℕ) (xs : List A) → length xs ≤ n → take n xs ≡ xs
  take_all zero [] h = refl
  take_all zero (x ∷ xs) h = absurd (omega arith)
  take_all (suc n) [] h = refl
  take_all (suc n) (x ∷ xs) h = ap (λ ys. x ∷ ys) (take_all n xs (omega arith))

  pub take-take-suc : (n : ℕ) (xs : List A) → take n (take (suc n) xs) ≡ take n xs
  take-take-suc zero xs = refl
  take-take-suc (suc n) [] = refl
  take-take-suc (suc n) (x ∷ xs) = ap (λ ys. x ∷ ys) (take-take-suc n xs)

  pub length-take-suc : (n : ℕ) (xs : List A) → n < length xs → length (take (suc n) xs) ≡ suc n
  length-take-suc zero [] h = absurd (omega arith)
  length-take-suc zero (x ∷ xs) h = refl
  length-take-suc (suc n) [] h = absurd (omega arith)
  length-take-suc (suc n) (x ∷ xs) h = ap suc (length-take-suc n xs (omega arith))

  pub length-drop : (n : ℕ) (xs : List A) → 1 ≤ n → n < length xs → length (drop n xs) < length xs
  length-drop zero xs h k = absurd (omega arith)
  length-drop (suc n) [] h k = absurd (omega arith)
  length-drop (suc zero) (x ∷ xs) h k = omega arith
  length-drop (suc (suc n)) (x ∷ xs) h k =
      omega (arith, length-drop (suc n) xs (omega arith) (omega arith))

  pub last_exists :
      (n : ℕ) (xs : List A) → 1 ≤ n → n < length xs → (x : A) × (get_last? (take n xs) ≡ some x)
  last_exists zero xs h k = absurd (omega arith)
  last_exists (suc n) [] h k = absurd (omega arith)
  last_exists (suc zero) (x ∷ xs) h k = (x, refl)
  last_exists (suc (suc n)) (x ∷ []) h k = absurd (omega arith)
  last_exists (suc (suc n)) (x ∷ y ∷ xs) h k =
      last_exists (suc n) (y ∷ xs) (omega arith) (omega arith)

  pub select-ext :
      (p q : A → Bool) → ((a : A) → p a ≡ q a) → (xs : List A) → select p xs ≡ select q xs
  unfolding select
  select-ext p q h [] = refl
  select-ext p q h (x ∷ xs) = rw (h x, select-ext p q h xs) refl
