-- ===== src/Repository/Keeping.antt =====
-- What every statement keeps, every method of the repositories keeps.
use event_driven_notificatio.Prelude.{
  Result, ℕ, ◌≡◌, refl, ap, Bool, List, [], ◌∷◌, ok, err, subst, sym, Bool-cases, inl, inr, Option,
  none, some, find, arith,
}
use event_driven_notificatio.Prelude.Text.{Str}
use event_driven_notificatio.Domain.{
  Status, Notification, DeliveryAttempt, Template, UpdateTemplateRequest,
}
use event_driven_notificatio.Services.{
  AttemptRow, TemplateRow, Services, Row, Database, W, now, next_uuid, read_rows,
}
use event_driven_notificatio.Services.Effects.{exec-db}
use event_driven_notificatio.Repository.Rows.{to_micros}
use event_driven_notificatio.Repository.Sql.{
  PgError, failure, insert_notification, update_status_by_id, increment_by_id, cancel_by_id,
  fetch_due, insert_attempt,
}
use event_driven_notificatio.Repository.Reading.{get_by_id-world}
use event_driven_notificatio.Repository.Notifications.{
  cancel_outcome, scan_all, create, update_status, increment_attempt, cancel, fetch_scheduled_due,
  create_delivery_attempt,
}
use event_driven_notificatio.Repository.Templates.{
  is_template, update_found, insert_template, select_template, update_template_by_id,
  delete_template_by_id, is_empty_update, create_template, get_template, set_columns,
  update_template, delete_template,
}

pub record IsKeptByTemplates (P : Database → Type 0) : Type 0 where
  pub add_template : (row : TemplateRow) (db : Database) → P db → P (insert_template row db).1
  pub edit_template :
      (req : UpdateTemplateRequest) (t id : ℕ) (db : Database)
      → P db
      → P (update_template_by_id req t id db).1
  pub drop_template : (id : ℕ) (db : Database) → P db → P (delete_template_by_id id db).1

pub record IsKept (P : Database → Type 0) : Type 0 where
  pub insert : (row : Row) (db : Database) → P db → P (insert_notification row db).1
  pub update :
      (s : Status) (e : Str) (t id : ℕ) (db : Database)
      → P db
      → P (update_status_by_id s e t id db).1
  pub increment : (id t : ℕ) (db : Database) → P db → P (increment_by_id id t db).1
  pub cancel : (id t : ℕ) (db : Database) → P db → P (cancel_by_id id t db).1
  pub fetch :
      (locked : ℕ → Bool) (limit t : ℕ) (db : Database) → P db → P (fetch_due locked limit t db).1
  pub attempt : (a : AttemptRow) (db : Database) → P db → P (insert_attempt a db).1
  pub templates : IsKeptByTemplates P

module _ (env : Services) where
  pub scan_all-db : (r : Result PgError (List Row)) (w : W env) → (scan_all env r w).1.db ≡ w.db
  unfolding scan_all read_rows
  scan_all-db (err e) w = refl
  scan_all-db (ok rows) w = refl

  pub cancel_outcome-db :
      (id : ℕ) (r : Result PgError (List Row)) (w : W env) → (cancel_outcome env id r w).1.db ≡ w.db
  unfolding cancel_outcome
  cancel_outcome-db id (err e) w = refl
  cancel_outcome-db id (ok (_ ∷ _)) w = refl
  cancel_outcome-db id (ok []) w = ap (λ v. v.db) (get_by_id-world env id w)

module _ (env : Services) (P : Database → Type 0) (kept : IsKept P) where
  pub create-keeps : (n : Notification) (w : W env) → P w.db → P (create env n w).1.db
  unfolding create now next_uuid
  create-keeps n w h =
      exec-db env failure (λ (t : ℕ). insert_notification _) _ P h (kept.insert _ w.db h)

  pub update_status-keeps :
      (id : ℕ) (s : Status) (e : Str) (w : W env) → P w.db → P (update_status env id s e w).1.db
  unfolding update_status now
  update_status-keeps id s e w h =
      exec-db env failure (λ (t : ℕ). update_status_by_id s e (to_micros (env.clock w.step)) id) _ P
        h (kept.update s e _ id w.db h)

  pub increment_attempt-keeps : (id : ℕ) (w : W env) → P w.db → P (increment_attempt env id w).1.db
  unfolding increment_attempt
  increment_attempt-keeps id w h =
      exec-db env failure (increment_by_id id) w P h (kept.increment id _ w.db h)

  pub create_delivery_attempt-keeps :
      (a : DeliveryAttempt) (w : W env) → P w.db → P (create_delivery_attempt env a w).1.db
  unfolding create_delivery_attempt now next_uuid
  create_delivery_attempt-keeps a w h =
      exec-db env failure (λ (t : ℕ). insert_attempt _) _ P h (kept.attempt _ w.db h)

  pub fetch_scheduled_due-keeps :
      (limit : ℕ) (w : W env) → P w.db → P (fetch_scheduled_due env limit w).1.db
  unfolding fetch_scheduled_due
  fetch_scheduled_due-keeps limit w h =
      let stmt = fetch_due (env.locked w.step) limit in
      subst P (sym (scan_all-db env _ _)) (
        exec-db env failure stmt w P h
          (kept.fetch (env.locked w.step) limit (env.db_clock w.step) w.db h))

  pub cancel-keeps : (id : ℕ) (w : W env) → P w.db → P (cancel env id w).1.db
  unfolding cancel
  cancel-keeps id w h =
      subst P (sym (cancel_outcome-db env id _ _))
        (exec-db env failure (cancel_by_id id) w P h (kept.cancel id (env.db_clock w.step) w.db h))

module _ (env : Services) (P : Database → Type 0) (kept : IsKeptByTemplates P) where
  pub create_template-keeps : (t : Template) (w : W env) → P w.db → P (create_template env t w).1.db
  unfolding create_template now next_uuid
  create_template-keeps t w h =
      exec-db env failure (λ (k : ℕ). insert_template _) _ P h (kept.add_template _ w.db h)

  pub update_template-keeps :
      (id : ℕ) (req : UpdateTemplateRequest) (w : W env)
      → P w.db
      → P (update_template env id req w).1.db
  unfolding update_template set_columns get_template select_template now
  update_template-keeps id req w h = elim (Bool-cases (is_empty_update req)) [
    | inl none_set ↦ rw none_set (exec-db env failure (λ (k : ℕ). select_template id) w P h h)
    | inr some_set ↦ rw some_set (
        exec-db env failure (λ (k : ℕ). update_template_by_id req (to_micros (env.clock w.step)) id)
          _ P h (kept.edit_template req _ id w.db h))
  ]

  pub delete_template-keeps : (id : ℕ) (w : W env) → P w.db → P (delete_template env id w).1.db
  unfolding delete_template
  delete_template-keeps id w h =
      exec-db env failure (λ (k : ℕ). delete_template_by_id id) w P h (kept.drop_template id w.db h)

-- The tables of notifications and attempts are the same.
record SameRows (db db' : Database) : Type 0 where
  notifications : db'.notifications ≡ db.notifications
  attempts : db'.attempts ≡ db.attempts

insert-SameRows : (row : TemplateRow) (db : Database) → SameRows db (insert_template row db).1
unfolding insert_template
insert-SameRows row db = ground arith

found-SameRows :
    (req : UpdateTemplateRequest) (t id : ℕ) (o : Option TemplateRow) (db : Database)
    → SameRows db (update_found req t id o db).1
unfolding update_found
found-SameRows req t id none db = ground arith
found-SameRows req t id (some row) db = ground arith

update-SameRows :
    (req : UpdateTemplateRequest) (t id : ℕ) (db : Database)
    → SameRows db (update_template_by_id req t id db).1
unfolding update_template_by_id
update-SameRows req t id db =
    ground (arith, found-SameRows req t id (find (is_template id) db.templates) db)

delete-SameRows : (id : ℕ) (db : Database) → SameRows db (delete_template_by_id id db).1
unfolding delete_template_by_id
delete-SameRows id db = ground arith

module _ (R : List Row → List AttemptRow → Type 0) where
  on_same_rows :
      (db db' : Database)
      → SameRows db db'
      → R db.notifications db.attempts
      → R db'.notifications db'.attempts
  on_same_rows db db' same h =
      subst (R db'.notifications) (sym same.attempts)
        (subst (λ z. R z db.attempts) (sym same.notifications) h)

  -- What speaks of notifications and attempts only, the statements on templates keep.
  pub rows-IsKeptByTemplates : IsKeptByTemplates (λ db. R db.notifications db.attempts)
  rows-IsKeptByTemplates = record {
    add_template = λ row db. on_same_rows db _ (insert-SameRows row db);
    edit_template = λ req t id db. on_same_rows db _ (update-SameRows req t id db);
    drop_template = λ id db. on_same_rows db _ (delete-SameRows id db);
  }
