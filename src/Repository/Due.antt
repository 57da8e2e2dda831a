-- ===== src/Repository/Due.antt =====
-- The rows that the subselect of FetchScheduledDue picks.
use event_driven_notificatio.Prelude.{
  ℕ, zero, suc, ◌==◌, ◌≡◌, refl, sym, ◌∙◌, Bool, true, false, ◌&&◌, not, Bool-cases, inl, inr, some,
  List, [], ◌∷◌, map, take, select, find, any, All, arith,
}
use event_driven_notificatio.Services.{Row}
use event_driven_notificatio.Repository.Sql.{
  insert_by, order_by, has_id, is_due, due_before, due_ids, listed,
}
use event_driven_notificatio.Repository.Tables.{IsTable}
use event_driven_notificatio.Repository.Lookup.{any-has_id-of-find}

module _ {ℓ} {A : Type ℓ} (p : A → Bool) where
  any-take : (n : ℕ) (xs : List A) → any p (take n xs) ≡ true → any p xs ≡ true
  unfolding any
  any-take zero xs e = cc
  any-take (suc n) [] e = cc
  any-take (suc n) (x ∷ xs) e = ground (arith, any-take n xs)

  any-insert_by :
      (le : A → A → Bool) (x : A) (ys : List A) → any p (insert_by le x ys) ≡ any p (x ∷ ys)
  unfolding any insert_by
  any-insert_by le x [] = refl
  any-insert_by le x (y ∷ ys) = ground (arith, any-insert_by le x ys)

  pub any-order_by : (le : A → A → Bool) (xs : List A) → any p (order_by le xs) ≡ any p xs
  unfolding any order_by
  any-order_by le [] = refl
  any-order_by le (x ∷ xs) = any-insert_by le x (order_by le xs) ∙ rw (any-order_by le xs) refl

any-map {ℓ κ} :
    {A : Type ℓ} {B : Type κ} (p : B → Bool) (f : A → B) (xs : List A)
    → any p (map f xs) ≡ any (λ a. p (f a)) xs
unfolding any
any-map p f [] = refl
any-map p f (x ∷ xs) = rw (any-map p f xs) refl

pub any-select_none {ℓ} :
    {A : Type ℓ} (p q : A → Bool) (xs : List A) → any p xs ≡ false → any p (select q xs) ≡ false
unfolding any select
any-select_none p q [] e = refl
any-select_none p q (x ∷ xs) e = ground (arith, any-select_none p q xs)

-- In a table, what a selected row with an ID passes, the row that is found under the ID passes.
found-selected :
    (q : Row → Bool) (id : ℕ) (rows : List Row) {row : Row}
    → IsTable rows
    → find (has_id id) rows ≡ some row
    → any (has_id id) (select q rows) ≡ true
    → q row ≡ true
unfolding find any select
found-selected q id [] h e picked = cc
found-selected q id (r ∷ rows) {row} h e picked =
    ground (arith, found-selected q id rows {row = row} h.4, any-select_none (has_id id) q rows)

-- A row whose ID is picked is due, and no other transaction has locked it.
pub listed-due :
    (locked : ℕ → Bool) (limit now : ℕ) (rows : List Row) (row : Row)
    → IsTable rows
    → find (has_id row.id) rows ≡ some row
    → listed (due_ids locked limit now rows) row ≡ true
    → (is_due now row && not (locked row.id)) ≡ true
unfolding due_ids
listed-due locked limit now rows row h found picked =
    let due = select (λ r. is_due now r && not (locked r.id)) rows in
    let in_order = any-take (has_id row.id) limit (order_by due_before due) (
      sym (any-map (λ i. i == row.id) (λ r. r.id) (take limit (order_by due_before due)))
      ∙ picked) in
    found-selected (λ r. is_due now r && not (locked r.id)) row.id rows h found
      (sym (any-order_by (has_id row.id) due_before due) ∙ in_order)

-- What a selection holds, where the rows are a table: each row is found under its ID.
pub selected-found :
    (p : Row → Bool) (rows : List Row)
    → IsTable rows
    → All (λ r. (find (has_id r.id) rows ≡ some r) × (p r ≡ true)) (select p rows)
unfolding find any select
selected-found p [] h = tt
selected-found p (x ∷ xs) h =
    let rest = later (select p xs) (selected-found p xs h.4) in
    elim (Bool-cases (p x)) [
      | inl kept ↦ rw kept ((ground arith, kept), rest)
      | inr left ↦ rw left rest
    ]
  where
    later :
        (rs : List Row)
        → All (λ r. (find (has_id r.id) xs ≡ some r) × (p r ≡ true)) rs
        → All (λ r. (find (has_id r.id) (x ∷ xs) ≡ some r) × (p r ≡ true)) rs
    later [] a = tt
    later (r ∷ rs) a = ((ground (arith, any-has_id-of-find r.id xs {r = r}), a.0.1), later rs a.1)
