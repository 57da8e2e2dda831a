-- ===== src/Ratelimit/Window.antt =====
-- The sliding window over a sequence of calls of the script.
use event_driven_notificatio.Prelude.{
  ℕ, ◌+◌, ◌≤◌, ◌==◌, ltb, ◌≡◌, refl, Bool, false, Bool-cases, inl, inr, List, [], ◌∷◌, ◌++◌, length,
  select, any, All, arith, if◌then◌else◌,
}
use event_driven_notificatio.Prelude.Text.{Str, same}
use event_driven_notificatio.Services.{Services}
use event_driven_notificatio.Services.Laws.{set_score}
use event_driven_notificatio.Ratelimit.{window_member, sliding_window}

-- A call of the script: the time in milliseconds and the number that it draws.
abbrev pub Call : Type 0
Call = ℕ × ℕ

abbrev pub entry_of : Call → Str × ℕ
entry_of c = (window_member c.0 c.1, c.0)

module _ (env : Services) (key : Str) (window max_requests : ℕ) where
  -- The calls that are admitted, oldest first, each as the entry that it adds.
  unfoldable pub admit : List Call → env.Redis → List (Str × ℕ)
  admit [] r = []
  admit (c ∷ calls) r =
      let (answer, r') = sliding_window env key window max_requests c.0 c.1 r in
      let rest = admit calls r' in if answer == 1 then entry_of c ∷ rest else rest

-- The entries of a window that ends at `t`.
abbrev pub in_window : ℕ → ℕ → Str × ℕ → Bool
in_window window t p = ltb t (p.1 + window)

abbrev pub has_member : Str → Str × ℕ → Bool
has_member m p = same p.0 m

-- The calls come in the order of their times, none before `t`.
abbrev pub IsFrom : ℕ → List Call → Type 0
IsFrom t [] = Unit
IsFrom t (c ∷ calls) = (t ≤ c.0) × IsFrom c.0 calls

-- No two calls have the same member.
abbrev pub AreDistinct : List Call → Type 0
AreDistinct [] = Unit
AreDistinct (c ∷ calls) =
    All (λ d. same (entry_of c).0 (entry_of d).0 ≡ false) calls × AreDistinct calls

-- No call has the member of an entry.
abbrev pub AreNew : List (Str × ℕ) → List Call → Type 0
AreNew acc calls = All (λ c. any (has_member (entry_of c).0) acc ≡ false) calls

any-append_none {ℓ} :
    {A : Type ℓ} (q : A → Bool) (xs : List A) (x : A)
    → any q xs ≡ false
    → q x ≡ false
    → any q (xs ++ x ∷ []) ≡ false
unfolding any
any-append_none q [] x e h = ground arith
any-append_none q (y ∷ xs) x e h = ground (arith, any-append_none q xs x)

pub AreNew-append :
    (acc : List (Str × ℕ)) (c : Call) (calls : List Call)
    → AreNew acc calls
    → All (λ d. same (entry_of c).0 (entry_of d).0 ≡ false) calls
    → AreNew (acc ++ entry_of c ∷ []) calls
AreNew-append acc c [] new apart = tt
AreNew-append acc c (d ∷ calls) new apart = (
  any-append_none (has_member (entry_of d).0) acc (entry_of c) new.0 apart.0,
  AreNew-append acc c calls new.1 apart.1,
)

pub set_score-new :
    (m : Str) (t : ℕ) (z : List (Str × ℕ))
    → any (has_member m) z ≡ false
    → set_score m t z ≡ z ++ (m, t) ∷ []
unfolding set_score any
set_score-new m t [] e = refl
set_score-new m t ((m', s) ∷ z) e = ground (arith, set_score-new m t z)

module _ {ℓ} {A : Type ℓ} (p : A → Bool) where
  pub select-append : (xs ys : List A) → select p (xs ++ ys) ≡ select p xs ++ select p ys
  unfolding select
  select-append [] ys = refl
  select-append (x ∷ xs) ys = elim (Bool-cases (p x)) [
    | inl e ↦ rw (e, select-append xs ys) refl
    | inr e ↦ rw (e, select-append xs ys) refl
  ]

  pub any-select : (q : A → Bool) (xs : List A) → any q xs ≡ false → any q (select p xs) ≡ false
  unfolding select any
  any-select q [] e = refl
  any-select q (x ∷ xs) e = ground (arith, any-select q xs)

-- A later window holds of an earlier one what it would hold of all.
pub later_window :
    (window t t' : ℕ) (z : List (Str × ℕ))
    → t ≤ t'
    → select (in_window window t') (select (in_window window t) z) ≡ select (in_window window t') z
unfolding select
later_window window t t' [] h = refl
later_window window t t' (p ∷ z) h = ground (arith, later_window window t t' z h)

pub length-later_window :
    (window t t' : ℕ) (z : List (Str × ℕ))
    → t ≤ t'
    → length (select (in_window window t') z) ≤ length (select (in_window window t) z)
unfolding select
length-later_window window t t' [] h = omega arith
length-later_window window t t' (p ∷ z) h = ground (arith, length-later_window window t t' z h)
