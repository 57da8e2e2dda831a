-- ===== src/Repository/Lookup.antt =====
-- Finding a row by its ID in a table that a statement has changed.
use event_driven_notificatio.Prelude.{
  if◌then◌else◌, ℕ, ◌≡◌, refl, ◌≢◌, Bool, true, false, none, some, List, [], ◌∷◌, ◌++◌, find, any,
  arith,
}
use mathlib.Core.Option
use event_driven_notificatio.Services.{Row}
use event_driven_notificatio.Repository.Sql.{has_id, update_where}

-- An update that does not touch the ID.
abbrev pub KeepsId : (Row → Row) → Type 0
KeepsId f = (r : Row) → (f r).id ≡ r.id

module _ (id : ℕ) (f : Row → Row) (keeps : KeepsId f) where
  pub find-update_where :
      (rows : List Row)
      → find (has_id id) (update_where (has_id id) f rows) ≡ Option.map f (find (has_id id) rows)
  unfolding find update_where
  find-update_where [] = refl
  find-update_where (r ∷ rows) = ground (arith, keeps r, find-update_where rows)

module _ (id : ℕ) (p : Row → Bool) (f : Row → Row) (keeps : KeepsId f) where
  -- A row that the WHERE clause leaves out is found as it was.
  pub find-update_where_other :
      (rows : List Row)
      → ((r : Row) → r.id ≡ id → p r ≡ false)
      → find (has_id id) (update_where p f rows) ≡ find (has_id id) rows
  unfolding find update_where
  find-update_where_other [] out = refl
  find-update_where_other (r ∷ rows) out =
      ground (arith, keeps r, out r, find-update_where_other rows out)

pub find-has_id : (id : ℕ) (rows : List Row) {r : Row} → find (has_id id) rows ≡ some r → r.id ≡ id
unfolding find
find-has_id id [] e = cc
find-has_id id (x ∷ rows) {r} e = ground (arith, find-has_id id rows {r = r})

pub any-has_id-of-find :
    (id : ℕ) (rows : List Row) {r : Row}
    → find (has_id id) rows ≡ some r
    → any (has_id id) rows ≡ true
unfolding find any
any-has_id-of-find id [] e = cc
any-has_id-of-find id (x ∷ rows) {r} e = ground (arith, any-has_id-of-find id rows {r = r})

pub find-append_new :
    (id : ℕ) (r : Row) (rows : List Row)
    → r.id ≡ id
    → any (has_id id) rows ≡ false
    → find (has_id id) (rows ++ r ∷ []) ≡ some r
unfolding find any
find-append_new id r [] same new = ground arith
find-append_new id r (x ∷ rows) same new = ground (arith, find-append_new id r rows same)

pub find-append_old :
    (id : ℕ) (r : Row) (rows : List Row)
    → r.id ≢ id
    → find (has_id id) (rows ++ r ∷ []) ≡ find (has_id id) rows
unfolding find
find-append_old id r [] other = ground arith
find-append_old id r (x ∷ rows) other = ground (arith, find-append_old id r rows other)

pub find-none_of_any :
    (id : ℕ) (rows : List Row) → any (has_id id) rows ≡ false → find (has_id id) rows ≡ none
unfolding find any
find-none_of_any id [] e = refl
find-none_of_any id (x ∷ rows) e = ground (arith, find-none_of_any id rows)

module _ (id : ℕ) (p : Row → Bool) (f : Row → Row) (keeps : KeepsId f) where
  -- Under any WHERE clause, the row that is found is the one found before, updated if it passes.
  pub find-update_where_any :
      (rows : List Row)
      → find (has_id id) (update_where p f rows)
        ≡ Option.map (λ r. if p r then f r else r) (find (has_id id) rows)
  unfolding find update_where
  find-update_where_any [] = refl
  find-update_where_any (r ∷ rows) = ground (arith, keeps r, find-update_where_any rows)
