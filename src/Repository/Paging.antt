-- ===== src/Repository/Paging.antt =====
-- The order of List, and what a cursor selects.
use event_driven_notificatio.Prelude.{
  ℕ, zero, suc, ◌≡◌, refl, ap, sym, ◌∙◌, subst, Bool, true, false, ◌&&◌, Bool-cases, inl, inr, none,
  some, Option, List, [], ◌∷◌, take, drop, get_last?, select, any, All, arith, if◌then◌else◌,
}
use event_driven_notificatio.Domain.{NotificationFilter, Cursor}
use event_driven_notificatio.Services.{Row}
use event_driven_notificatio.Repository.Rows.{to_micros}
use event_driven_notificatio.Repository.Sql.{
  insert_by, order_by, has_id, older, newest_first, is_after, matches_fields, matches,
}
use event_driven_notificatio.Repository.Tables.{IsTable}
use event_driven_notificatio.Repository.Due.{any-order_by, any-select_none}

-- `b` comes behind `a`: it was created before, or at the same time with a smaller ID.
abbrev pub behind : Row → Row → Bool
behind a b = older b.created_at b.id a.created_at a.id

abbrev pub IsNewestFirst : List Row → Type 0
IsNewestFirst [] = Unit
IsNewestFirst (x ∷ xs) = All (λ y. behind x y ≡ true) xs × IsNewestFirst xs

behind_trans : (a b c : Row) → behind a b ≡ true → behind b c ≡ true → behind a c ≡ true
behind_trans a b c h k = ground arith

module _ (P : Row → Type 0) where
  pub All-insert_by :
      (le : Row → Row → Bool) (x : Row) (ys : List Row) → P x → All P ys → All P (insert_by le x ys)
  unfolding insert_by
  All-insert_by le x [] h a = (h, tt)
  All-insert_by le x (y ∷ ys) h a = elim (Bool-cases (le x y)) [
    | inl e ↦ rw e (h, a)
    | inr e ↦ rw e (a.0, All-insert_by le x ys h a.1)
  ]

  All-select : (q : Row → Bool) (xs : List Row) → All P xs → All P (select q xs)
  unfolding select
  All-select q [] a = tt
  All-select q (x ∷ xs) a = elim (Bool-cases (q x)) [
    | inl e ↦ rw e (a.0, All-select q xs a.1)
    | inr e ↦ rw e (All-select q xs a.1)
  ]

All-behind :
    (x y : Row) (ys : List Row)
    → behind x y ≡ true
    → All (λ z. behind y z ≡ true) ys
    → All (λ z. behind x z ≡ true) ys
All-behind x y [] h a = tt
All-behind x y (z ∷ ys) h a = (behind_trans x y z h a.0, All-behind x y ys h a.1)

insert-IsNewestFirst :
    (x : Row) (ys : List Row)
    → any (has_id x.id) ys ≡ false
    → IsNewestFirst ys
    → IsNewestFirst (insert_by newest_first x ys)
unfolding insert_by any
insert-IsNewestFirst x [] new h = (tt, tt)
insert-IsNewestFirst x (y ∷ ys) new h = elim (Bool-cases (newest_first x y)) [
  | inl e ↦
      let first : behind x y ≡ true = ground arith in rw e ((first, All-behind x y ys first h.0), h)
  | inr e ↦ rw e (
    All-insert_by (λ z. behind y z ≡ true) newest_first x ys (ground arith) h.0,
    insert-IsNewestFirst x ys (ground arith) h.1,
  )
]

-- The rows of a query stand strictly in order, since no two have the same ID.
pub order_by-IsNewestFirst :
    (p : Row → Bool) (rows : List Row)
    → IsTable rows
    → IsNewestFirst (order_by newest_first (select p rows))
unfolding order_by select
order_by-IsNewestFirst p [] h = tt
order_by-IsNewestFirst p (r ∷ rows) h = elim (Bool-cases (p r)) [
  | inl e ↦ rw e (
      insert-IsNewestFirst r (order_by newest_first (select p rows))
        (any-order_by (has_id r.id) newest_first (select p rows)
          ∙ any-select_none (has_id r.id) p rows h.0)
        (order_by-IsNewestFirst p rows h.4))
  | inr e ↦ rw e (order_by-IsNewestFirst p rows h.4)
]

insert_front :
    (x : Row) (ys : List Row)
    → All (λ y. newest_first x y ≡ true) ys
    → insert_by newest_first x ys ≡ x ∷ ys
unfolding insert_by
insert_front x [] a = refl
insert_front x (y ∷ ys) a = rw (a.0) refl

newest_first-behind :
    (x y : Row) (ys : List Row)
    → newest_first x y ≡ true
    → All (λ z. behind y z ≡ true) ys
    → All (λ z. newest_first x z ≡ true) ys
newest_first-behind x y [] h a = tt
newest_first-behind x y (z ∷ ys) h a =
    let k = a.0 in (ground arith, newest_first-behind x y ys h a.1)

select-insert_by :
    (q : Row → Bool) (x : Row) (ys : List Row)
    → IsNewestFirst ys
    → select q (insert_by newest_first x ys)
      ≡ (if q x then insert_by newest_first x (select q ys) else select q ys)
unfolding select insert_by
select-insert_by q x [] h = ground arith
select-insert_by q x (y ∷ ys) h = elim (Bool-cases (newest_first x y)) [
  | inl e ↦
      let front = insert_front x (select q (y ∷ ys)) (
        All-select (λ z. newest_first x z ≡ true) q (y ∷ ys)
          (e, newest_first-behind x y ys e h.0)) in
      rw e (ap (λ z. if q x then z else select q (y ∷ ys)) (sym front))
  | inr e ↦ let later = select-insert_by q x ys h.1 in ground arith
]

-- A selection of an ordered selection is an ordered selection.
pub select-order_by :
    (p q : Row → Bool) (rows : List Row)
    → IsTable rows
    → select q (order_by newest_first (select p rows))
      ≡ order_by newest_first (select (λ r. p r && q r) rows)
unfolding order_by select
select-order_by p q [] h = refl
select-order_by p q (r ∷ rows) h =
    let rest = order_by newest_first (select p rows) in
    let inserted = select-insert_by q r rest (order_by-IsNewestFirst p rows h.4) in
    let ih = select-order_by p q rows h.4 in
    elim (Bool-cases (p r)) [
      | inl e ↦ rw e (
          inserted ∙ elim (Bool-cases (q r)) [
            | inl t ↦ rw t (ap (insert_by newest_first r) ih)
            | inr f ↦ rw f ih
          ])
      | inr e ↦ rw e ih
    ]

pub last_of :
    (P : Row → Type 0) (x : Row) (k : ℕ) (ys : List Row)
    → All P ys
    → get_last? (take k ys) ≡ some x
    → P x
last_of P x zero ys a e = cc
last_of P x (suc k) [] a e = cc
last_of P x (suc zero) (y ∷ ys) a e = let same : y ≡ x = cc in subst P same a.0
last_of P x (suc (suc k)) (y ∷ []) a e = let same : y ≡ x = cc in subst P same a.0
last_of P x (suc (suc k)) (y ∷ z ∷ ys) a e = last_of P x (suc k) (z ∷ ys) a.1 e

select-All : (q : Row → Bool) (xs : List Row) → All (λ r. q r ≡ true) xs → select q xs ≡ xs
unfolding select
select-All q [] a = refl
select-All q (x ∷ xs) a = rw (a.0, select-All q xs a.1) refl

-- What stands behind the last row of a page is what the page has left.
pub select-behind :
    (k : ℕ) (x : Row) (xs : List Row)
    → IsNewestFirst xs
    → get_last? (take k xs) ≡ some x
    → select (behind x) xs ≡ drop k xs
unfolding select
select-behind zero x xs h e = cc
select-behind (suc k) x [] h e = cc
select-behind (suc zero) x (y ∷ ys) h e =
    let same : y ≡ x = cc in
    let self : behind x y ≡ false = rw same (ground arith) in
    rw self (select-All (behind x) ys (subst (λ z. All (λ r. behind z r ≡ true) ys) same h.0))
select-behind (suc (suc k)) x (y ∷ []) h e =
    let same : y ≡ x = cc in let self : behind x y ≡ false = rw same (ground arith) in rw self refl
select-behind (suc (suc k)) x (y ∷ z ∷ ys) h e =
    let ahead : behind y x ≡ true = last_of (λ r. behind y r ≡ true) x (suc k) (z ∷ ys) h.0 e in
    let not_behind : behind x y ≡ false = ground arith in
    rw not_behind (select-behind (suc k) x (z ∷ ys) h.1 e)

-- The cursor of a row.
abbrev pub cursor_of : Row → Cursor
cursor_of x = record { created_at = x.created_at; id = x.id }

is_after-cursor :
    (o : Option Cursor) (x r : Row)
    → to_micros x.created_at ≡ x.created_at
    → is_after o x ≡ true
    → is_after (some (cursor_of x)) r ≡ (is_after o r && behind x r)
is_after-cursor none x r micros e = rw micros refl
is_after-cursor (some c) x r micros e = rw micros (ground arith)

and_regroup : (a b c : Bool) → (a && (b && c)) ≡ ((a && b) && c)
and_regroup true b c = refl
and_regroup false b c = refl

-- With the cursor of a matching row, a filter matches the rows behind it.
pub matches-cursor :
    (f : NotificationFilter) (x r : Row)
    → to_micros x.created_at ≡ x.created_at
    → matches f x ≡ true
    → matches (record f { cursor = some (cursor_of x) }) r ≡ (matches f r && behind x r)
unfolding matches matches_fields
matches-cursor f x r micros e =
    let after = is_after-cursor f.cursor x r micros (ground arith) in
    ap (λ b. matches_fields f r && b) after ∙ and_regroup (matches_fields f r) _ _
