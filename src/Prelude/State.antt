-- ===== src/Prelude/State.antt =====
-- State passing: a program over states `S` that returns an `A`.
use mathlib.Core.List.{List, [], ◌∷◌}
use event_driven_notificatio.Prelude.Tests.{Result, ok, err}

abbrev pub M : Type 0 → Type 0 → Type 0
M S A = S → A × S

abbrev pub pure : {S A : Type 0} → A → M S A
pure a s = (a, s)

infixl 5 ◌>>=◌ ◌>>◌
abbrev pub ◌>>=◌ : {S A B : Type 0} → M S A → (A → M S B) → M S B
◌>>=◌ m f s = let (a, s') = m s in f a s'

abbrev pub ◌>>◌ : {S A B : Type 0} → M S A → M S B → M S B
◌>>◌ m k s = let (_, s') = m s in k s'

-- `for _, x := range xs { f(x) }`
unfoldable pub each : {S A B : Type 0} → (A → M S B) → List A → M S (Unit {0})
each f [] = pure tt
each f (x ∷ xs) = f x >> each f xs

-- `if err != nil { return err }` after a call.
abbrev pub and_then :
    {S E A B : Type 0} → M S (Result E A) → (A → M S (Result E B)) → M S (Result E B)
and_then m f s = let (r, s') = m s in elim r [ ok a ↦ f a s' | err e ↦ (err e, s') ]
