-- ===== src/Repository/Cancelling.antt =====
-- What Cancel does, where the database answers.
use event_driven_notificatio.Prelude.{
  map, ◌==◌, is_ok, Bool-cases, ℕ, suc, ◌≡◌, refl, ap, ◌∙◌, true, false, Bool, ◌&&◌, none, some,
  List, [], ◌∷◌, ok, err, find, any, select, arith, if◌then◌else◌, inl, inr,
}
use event_driven_notificatio.Domain.{cancelled, not_found, cannot_cancel}
use event_driven_notificatio.Services.{Services, Row, W, answered}
use event_driven_notificatio.Services.Effects.{exec-answered}
use event_driven_notificatio.Repository.Sql.{
  has_id, may_cancel, failure, update_where, cancel_by_id,
}
use event_driven_notificatio.Repository.Lookup.{
  find-update_where_other, find-has_id, find-update_where_any,
}
use event_driven_notificatio.Repository.Rows.{scan_notification}
use event_driven_notificatio.Repository.Tables.{IsTable}
use event_driven_notificatio.Repository.Reading.{get_by_id-answered, get_by_id-world}
use event_driven_notificatio.Repository.Notifications.{get_by_id, cancel, cancel_outcome}

abbrev pub cancels : ℕ → Row → Bool
cancels id row = has_id id row && may_cancel row.status

-- What the statement returns and leaves, by the row that stands under the ID.
select-none_of_any :
    (id : ℕ) (rows : List Row) → any (has_id id) rows ≡ false → select (cancels id) rows ≡ []
unfolding any select
select-none_of_any id [] e = refl
select-none_of_any id (r ∷ rows) e = ground (arith, select-none_of_any id rows)

update-none_of_any :
    (id : ℕ) (f : Row → Row) (rows : List Row)
    → any (has_id id) rows ≡ false
    → update_where (cancels id) f rows ≡ rows
unfolding any update_where
update-none_of_any id f [] e = refl
update-none_of_any id f (r ∷ rows) e = ground (arith, update-none_of_any id f rows)

any-false_of_find :
    (id : ℕ) (rows : List Row) → find (has_id id) rows ≡ none → any (has_id id) rows ≡ false
unfolding find any
any-false_of_find id [] e = refl
any-false_of_find id (r ∷ rows) e = ground (arith, any-false_of_find id rows)

-- A row that may not be cancelled: no row of the table qualifies, since no other has its ID.
refused_rows :
    (id : ℕ) (f : Row → Row) (rows : List Row) {row : Row}
    → IsTable rows
    → find (has_id id) rows ≡ some row
    → may_cancel row.status ≡ false
    → (select (cancels id) rows ≡ []) × (update_where (cancels id) f rows ≡ rows)
unfolding find select update_where
refused_rows id f [] h e m = cc
refused_rows id f (r ∷ rows) {row} h e m = ground (
  arith,
  refused_rows id f rows {row = row} h.4,
  select-none_of_any id rows,
  update-none_of_any id f rows,
)

-- An UPDATE that keeps the IDs leaves them as they stand.
ids-update_where :
    (p : Row → Bool) (f : Row → Row)
    → ((r : Row) → (f r).id ≡ r.id)
    → (rows : List Row) → map (λ r. r.id) (update_where p f rows) ≡ map (λ r. r.id) rows
unfolding update_where
ids-update_where p f keeps [] = refl
ids-update_where p f keeps (r ∷ rows) = ground (arith, keeps r, ids-update_where p f keeps rows)

accepted_rows :
    (id : ℕ) (rows : List Row) {row : Row}
    → find (has_id id) rows ≡ some row
    → may_cancel row.status ≡ true
    → (x : Row) × (xs : List Row) × (select (cancels id) rows ≡ x ∷ xs)
unfolding find select
accepted_rows id [] e m = cc
accepted_rows id (r ∷ rows) {row} e m = elim (Bool-cases (has_id id r)) [
  | inl here ↦ (r, select (cancels id) rows, ground arith)
  | inr other ↦
      let (x, xs, q) = accepted_rows id rows {row = row} (ground arith) m in (x, xs, ground arith)
]

module _ (env : Services) (steady : (k : ℕ) → env.fault k ≡ answered) (id : ℕ) (w : W env) where
  abbrev t : ℕ
  t = env.db_clock w.step

  abbrev stopped : Row → Row
  stopped row = record row { status = cancelled; updated_at = t }

  abbrev w1 : W env
  w1 = record w { step = suc w.step; db = (cancel_by_id id t w.db).1 }

  cancel-runs :
      cancel env id w ≡ cancel_outcome env id (ok (select (cancels id) w.db.notifications)) w1
  unfolding cancel cancel_by_id
  cancel-runs =
      ap (λ x. cancel_outcome env id x.0 x.1)
        (exec-answered env failure (cancel_by_id id) w (steady w.step))

  -- The table is as before but for the row under the ID, which is stopped.
  abbrev pub Stops : Row → List Row → Type 0
  Stops row rows =
      ((j : ℕ)
        → find (has_id j) rows
          ≡ (if j == id then some (stopped row) else find (has_id j) w.db.notifications))
      × (map (λ r. r.id) rows ≡ map (λ r. r.id) w.db.notifications)

  pub stopped_there :
      (row : Row) (rows : List Row) → Stops row rows → find (has_id id) rows ≡ some (stopped row)
  stopped_there row rows stops =
      let same : id == id ≡ true = ground arith in stops.0 id ∙ rw same refl

  found_after :
      (row : Row) (j : ℕ)
      → find (has_id id) w.db.notifications ≡ some row
      → may_cancel row.status ≡ true
      → find (has_id j) (update_where (cancels id) stopped w.db.notifications)
        ≡ (if j == id then some (stopped row) else find (has_id j) w.db.notifications)
  found_after row j found may = elim (Bool-cases (j == id)) [
    | inl same ↦
        let e : j ≡ id = ground arith in
        let row_id : row.id ≡ id = find-has_id id w.db.notifications found in
        let taken : cancels id row ≡ true = ground arith in
        ap (λ k. find (has_id k) (update_where (cancels id) stopped w.db.notifications)) e
        ∙ find-update_where_any id (cancels id) stopped (λ r. refl) w.db.notifications
        ∙ rw (same, found) (rw taken refl)
    | inr other ↦
        find-update_where_other j (cancels id) stopped (λ r. refl) w.db.notifications
          (λ r own. ground arith)
        ∙ rw other refl
  ]

  -- Where every call is answered, Cancel of a notification that is pending, scheduled or queued reports
  -- no error. The row under its ID has the status cancelled and a new update time, and is otherwise as
  -- before; the row under every other ID is as before, and the table has the same IDs in the same
  -- order. The delivery attempts and the templates are as before.
  pub cancel_accepts :
      (row : Row)
      → find (has_id id) w.db.notifications ≡ some row
      → may_cancel row.status ≡ true
      → ((cancel env id w).0 ≡ ok tt)
        × Stops row (cancel env id w).1.db.notifications
        × ((cancel env id w).1.db.attempts ≡ w.db.attempts)
        × ((cancel env id w).1.db.templates ≡ w.db.templates)
  unfolding cancel_outcome cancel_by_id
  cancel_accepts row found may =
      let (x, xs, some_row) = accepted_rows id w.db.notifications found may in
      let run : cancel env id w ≡ (ok tt, w1) =
        cancel-runs ∙ ap (λ rows. cancel_outcome env id (ok rows) w1) some_row in
      (
        ap (λ p. p.0) run,
        (
          λ j. ap (λ p. find (has_id j) p.1.db.notifications) run ∙ found_after row j found may,
          ap (λ p. map (λ r. r.id) p.1.db.notifications) run
              ∙ ids-update_where (cancels id) stopped (λ r. refl) w.db.notifications,
        ),
        ap (λ p. p.1.db.attempts) run,
        ap (λ p. p.1.db.templates) run,
      )

  refused_run :
      select (cancels id) w.db.notifications ≡ []
      → update_where (cancels id) stopped w.db.notifications ≡ w.db.notifications
      → ((cancel env id w).0
          ≡ err (if is_ok (get_by_id env id w1).0 then cannot_cancel else not_found))
        × ((cancel env id w).1.db ≡ w.db)
  unfolding cancel_outcome cancel_by_id
  refused_run none_selected same =
      let run = cancel-runs ∙ ap (λ rows. cancel_outcome env id (ok rows) w1) none_selected in
      (
        ap (λ p. p.0) run,
        ap (λ p. p.1.db) run
            ∙ ap (λ v. v.db) (get_by_id-world env id w1)
            ∙ ap (λ rows. record (w.db) { notifications = rows }) same,
      )

  read_again :
      update_where (cancels id) stopped w.db.notifications ≡ w.db.notifications
      → (get_by_id env id w1).0 ≡ elim (find (has_id id) w.db.notifications) [
        | some row ↦ ok (scan_notification env row)
        | none ↦ err not_found
      ]
  unfolding cancel_by_id
  read_again same = get_by_id-answered env id w1 (steady (suc w.step)) ∙ rw same

  -- Where every call is answered and the table meets its constraints, a notification in any other
  -- status is left as it is, with all tables, and the error says that it
  -- cannot be cancelled.
  pub cancel_refuses :
      (row : Row)
      → IsTable w.db.notifications
      → find (has_id id) w.db.notifications ≡ some row
      → may_cancel row.status ≡ false
      → ((cancel env id w).0 ≡ err cannot_cancel) × ((cancel env id w).1.db ≡ w.db)
  cancel_refuses row valid found may =
      let (unselected, same) = refused_rows id stopped w.db.notifications valid found may in
      let (result, kept) = refused_run unselected same in
      (result ∙ rw (read_again same, found), kept)

  -- Where every call is answered and no notification has the ID, no table changes and the error says so.
  pub cancel_unknown :
      find (has_id id) w.db.notifications ≡ none
      → ((cancel env id w).0 ≡ err not_found) × ((cancel env id w).1.db ≡ w.db)
  cancel_unknown missing =
      let absent = any-false_of_find id w.db.notifications missing in
      let same = update-none_of_any id stopped w.db.notifications absent in
      let (result, kept) = refused_run (select-none_of_any id w.db.notifications absent) same in
      (result ∙ rw (read_again same, missing), kept)
