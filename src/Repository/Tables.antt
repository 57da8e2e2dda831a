-- ===== src/Repository/Tables.antt =====
-- The table of notifications: its invariant, from the constraints of migrations/, across inserts and
-- updates.
use event_driven_notificatio.Prelude.{
  ℕ, ◌≡◌, refl, true, false, Bool, ◌==◌, Option, none, some, List, [], ◌∷◌, ◌++◌, any, arith,
  Bool-cases, inl, inr, if◌then◌else◌,
}
use event_driven_notificatio.Prelude.Text.{Str, same}
use event_driven_notificatio.Domain.{channel_valid, priority_valid}
use event_driven_notificatio.Services.{Row}
use event_driven_notificatio.Repository.Sql.{has_id, same_key, update_where}

-- No two rows share an ID or an idempotency key, and channel and priority are values of their enums.
abbrev pub IsTable : List Row → Type 0
IsTable [] = Unit
IsTable (r ∷ rows) =
    (any (has_id r.id) rows ≡ false)
    × (any (λ x. same_key x.idempotency_key r.idempotency_key) rows ≡ false)
    × (channel_valid r.channel ≡ true)
    × (priority_valid r.priority ≡ true)
    × IsTable rows

-- An update that leaves alone what the constraints speak of.
abbrev pub KeepsKeys : (Row → Row) → Type 0
KeepsKeys f =
    (r : Row)
    → ((f r).id ≡ r.id)
      × ((f r).idempotency_key ≡ r.idempotency_key)
      × ((f r).channel ≡ r.channel)
      × ((f r).priority ≡ r.priority)

module _ (p : Row → Bool) (f : Row → Row) (keeps : KeepsKeys f) where
  any-update_id :
      (id : ℕ) (rows : List Row) → any (has_id id) (update_where p f rows) ≡ any (has_id id) rows
  unfolding any update_where
  any-update_id id [] = refl
  any-update_id id (r ∷ rows) = ground (arith, keeps r, any-update_id id rows)

  any-update_key :
      (k : Option Str) (rows : List Row)
      → any (λ x. same_key x.idempotency_key k) (update_where p f rows)
        ≡ any (λ x. same_key x.idempotency_key k) rows
  unfolding any update_where
  any-update_key k [] = refl
  any-update_key k (r ∷ rows) = ground (arith, keeps r, any-update_key k rows)

  pub update_where-IsTable : (rows : List Row) → IsTable rows → IsTable (update_where p f rows)
  unfolding update_where
  update_where-IsTable [] h = tt
  update_where-IsTable (r ∷ rows) h = elim (Bool-cases (p r)) [
    | inl hit ↦ rw hit (
        ground (
          arith,
          keeps r,
          any-update_id r.id rows,
          any-update_key r.idempotency_key rows,
          update_where-IsTable rows h.4,
        ))
    | inr miss ↦ rw miss (
        ground (
          arith,
          any-update_id r.id rows,
          any-update_key r.idempotency_key rows,
          update_where-IsTable rows h.4,
        ))
  ]

any-append_id :
    (id : ℕ) (r : Row) (rows : List Row)
    → any (has_id id) (rows ++ r ∷ []) ≡ (if any (has_id id) rows then true else r.id == id)
unfolding any
any-append_id id r [] = ground arith
any-append_id id r (x ∷ rows) = ground (arith, any-append_id id r rows)

any-append_key :
    (k : Option Str) (r : Row) (rows : List Row)
    → any (λ x. same_key x.idempotency_key k) (rows ++ r ∷ []) ≡ (
        if any (λ x. same_key x.idempotency_key k) rows then true else same_key r.idempotency_key k)
unfolding any
any-append_key k r [] = ground arith
any-append_key k r (x ∷ rows) = ground (arith, any-append_key k r rows)

pub same_comm : (s t : Str) → same s t ≡ same t s
unfolding same
same_comm [] [] = refl
same_comm [] (b ∷ t) = refl
same_comm (a ∷ s) [] = refl
same_comm (a ∷ s) (b ∷ t) = ground (arith, same_comm s t)

same_key_comm : (j k : Option Str) → same_key j k ≡ same_key k j
unfolding same_key
same_key_comm none none = refl
same_key_comm none (some k) = refl
same_key_comm (some j) none = refl
same_key_comm (some j) (some k) = same_comm j k

pub append-IsTable :
    (r : Row) (rows : List Row)
    → IsTable rows
    → any (has_id r.id) rows ≡ false
    → any (λ x. same_key x.idempotency_key r.idempotency_key) rows ≡ false
    → channel_valid r.channel ≡ true
    → priority_valid r.priority ≡ true
    → IsTable (rows ++ r ∷ [])
unfolding any
append-IsTable r [] h i k c p = (refl, refl, c, p, tt)
append-IsTable r (x ∷ rows) h i k c p = ground (
  arith,
  append-IsTable r rows h.4,
  any-append_id x.id r rows,
  any-append_key x.idempotency_key r rows,
  same_key_comm x.idempotency_key r.idempotency_key,
)
