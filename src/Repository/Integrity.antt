-- ===== src/Repository/Integrity.antt =====
-- The invariant of the table of notifications across the statements of the repositories.
use event_driven_notificatio.Prelude.{ℕ, refl, Bool, [], ◌∷◌, arith}
use event_driven_notificatio.Prelude.Text.{Str}
use event_driven_notificatio.Domain.{Status}
use event_driven_notificatio.Services.{AttemptRow, Row, Database}
use event_driven_notificatio.Repository.Sql.{
  set_status, insert_notification, update_status_by_id, increment_by_id, cancel_by_id, fetch_due,
  insert_attempt,
}
use event_driven_notificatio.Repository.Keeping.{IsKept, rows-IsKeptByTemplates}
use event_driven_notificatio.Repository.Tables.{
  IsTable, KeepsKeys, update_where-IsTable, append-IsTable,
}

abbrev pub IsSound : Database → Type 0
IsSound db = IsTable db.notifications

set_status-KeepsKeys : (s : Status) (e : Str) (t : ℕ) → KeepsKeys (set_status s e t)
unfolding set_status
set_status-KeepsKeys Status.delivered e t r = (refl, refl, refl, refl)
set_status-KeepsKeys s [] t r = (refl, refl, refl, refl)
set_status-KeepsKeys s (c ∷ e) t r = (refl, refl, refl, refl)

insert-IsSound : (row : Row) (db : Database) → IsSound db → IsSound (insert_notification row db).1
unfolding insert_notification
insert-IsSound row db h = ground (arith, append-IsTable row db.notifications h)

update-IsSound :
    (s : Status) (e : Str) (t id : ℕ) (db : Database)
    → IsSound db
    → IsSound (update_status_by_id s e t id db).1
unfolding update_status_by_id
update-IsSound s e t id db h =
    update_where-IsTable _ (set_status s e t) (set_status-KeepsKeys s e t) db.notifications h

increment-IsSound : (id t : ℕ) (db : Database) → IsSound db → IsSound (increment_by_id id t db).1
unfolding increment_by_id
increment-IsSound id t db h =
    update_where-IsTable _ _ (λ r. (refl, refl, refl, refl)) db.notifications h

cancel_by_id-IsSound : (id t : ℕ) (db : Database) → IsSound db → IsSound (cancel_by_id id t db).1
unfolding cancel_by_id
cancel_by_id-IsSound id t db h =
    update_where-IsTable _ _ (λ r. (refl, refl, refl, refl)) db.notifications h

fetch-IsSound :
    (locked : ℕ → Bool) (limit t : ℕ) (db : Database)
    → IsSound db
    → IsSound (fetch_due locked limit t db).1
unfolding fetch_due
fetch-IsSound locked limit t db h =
    update_where-IsTable _ _ (λ r. (refl, refl, refl, refl)) db.notifications h

attempt-IsSound : (a : AttemptRow) (db : Database) → IsSound db → IsSound (insert_attempt a db).1
unfolding insert_attempt
attempt-IsSound a db h = ground arith

pub IsSound-IsKept : IsKept IsSound
IsSound-IsKept = record {
  insert = insert-IsSound;
  update = update-IsSound;
  increment = increment-IsSound;
  cancel = cancel_by_id-IsSound;
  fetch = fetch-IsSound;
  attempt = attempt-IsSound;
  templates = rows-IsKeptByTemplates (λ rows attempts. IsTable rows);
}
