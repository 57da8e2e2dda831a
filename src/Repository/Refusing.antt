-- ===== src/Repository/Refusing.antt =====
-- What the methods that report an error have done to the tables, where the calls are answered.
use event_driven_notificatio.Prelude.{
  if◌then◌else◌, ℕ, ◌≡◌, ◌⊎◌, inl, inr, refl, ap, sym, ◌∙◌, true, false, ◌&&◌, not, Bool-cases,
  Option, none, some, List, [], ◌∷◌, Result, ok, err, select, any, find, arith, Bool,
}
use event_driven_notificatio.Domain.{Error, UpdateTemplateRequest, Template, channel_valid}
use event_driven_notificatio.Services.{
  Services, Row, TemplateRow, Database, W, answered, exec, now, next_uuid,
}
use event_driven_notificatio.Services.Effects.{exec-answered}
use event_driven_notificatio.Repository.Rows.{to_micros}
use event_driven_notificatio.Repository.Sql.{
  failure, PgError, Statement, holds_if, update_where, cancel_by_id, has_id, may_cancel,
}
use event_driven_notificatio.Repository.Notifications
use event_driven_notificatio.Repository.TemplateStore.{
  delete_template_decides, Refused, Deleted, Missing,
}
use event_driven_notificatio.Repository.Keeping.{cancel_outcome-db}
use event_driven_notificatio.Repository.Templates.{
  takes_name, set_template, to_template_row, is_template, insert_template, insert_result,
  update_found, update_template_by_id, refers_to, scan_updated, is_empty_update, create_template,
  set_columns, update_template, delete_template,
}
use event_driven_notificatio.Repository.Queries.{get_template-Later}

module _ (env : Services) where
  -- Where the call reports an error, the tables are as they were.
  abbrev pub Refuses : {A : Type 0} → Database → Result Error A × W env → Type 0
  Refuses before (r, w') = (e : Error) → r ≡ err e → w'.db ≡ before

-- A statement that fails leaves the tables alone.
insert_template_cases :
    (row : TemplateRow) (db : Database)
    → ((insert_template row db).0 ≡ ok tt) ⊎ ((insert_template row db).1 ≡ db)
unfolding insert_template
insert_template_cases row db = ground arith

not_inserted : (r : Result PgError (Unit {0})) (e : Error) → r ≡ ok tt → insert_result r ≡ err e → ⊥
not_inserted (ok u) e a b = cc
not_inserted (err x) e a b = cc

abbrev Updates : Result PgError (Option TemplateRow) × Database → Database → Type 0
Updates (r, db') db = ((row : TemplateRow) × (r ≡ ok (some row))) ⊎ (db' ≡ db)

found_cases :
    (req : UpdateTemplateRequest) (t id : ℕ) (o : Option TemplateRow) (db : Database)
    → Updates (update_found req t id o db) db
unfolding update_found
found_cases req t id none db = inr refl
found_cases req t id (some row) db =
    elim (Bool-cases (holds_if req.name (λ name. not (any (takes_name id name) db.templates)))) [
      | inl free ↦ rw free (inl (set_template req t row, refl))
      | inr taken ↦ rw taken (inr refl)
    ]

update_template_cases :
    (req : UpdateTemplateRequest) (t id : ℕ) (db : Database)
    → Updates (update_template_by_id req t id db) db
unfolding update_template_by_id
update_template_cases req t id db = elim (Bool-cases (holds_if req.channel channel_valid)) [
  | inl valid ↦ rw valid (found_cases req t id (find (is_template id) db.templates) db)
  | inr invalid ↦ rw invalid (inr refl)
]

not_updated :
    (r : Result PgError (Option TemplateRow)) (row : TemplateRow) (e : Error)
    → r ≡ ok (some row)
    → scan_updated r ≡ err e
    → ⊥
unfolding scan_updated
not_updated (ok (some x)) row e a b = cc
not_updated (ok none) row e a b = cc
not_updated (err x) row e a b = cc

update_none :
    (p : Row → Bool) (f : Row → Row) (rows : List Row)
    → select p rows ≡ []
    → update_where p f rows ≡ rows
unfolding select update_where
update_none p f [] e = refl
update_none p f (r ∷ rows) e = elim (Bool-cases (p r)) [
  | inl hit ↦ absurd (ground arith)
  | inr miss ↦ rw miss (ap (λ z. r ∷ z) (update_none p f rows (ground arith)))
]

cancel_cases :
    (id t : ℕ) (db : Database)
    → ((x : Row) × (xs : List Row) × ((cancel_by_id id t db).0 ≡ ok (x ∷ xs)))
      ⊎ ((cancel_by_id id t db).1 ≡ db)
unfolding cancel_by_id
cancel_cases id t db =
    go (select (λ row. has_id id row && may_cancel row.status) db.notifications) refl
  where
    go :
        (rows : List Row)
        → select (λ row. has_id id row && may_cancel row.status) db.notifications ≡ rows
        → ((x : Row) × (xs : List Row) × ((cancel_by_id id t db).0 ≡ ok (x ∷ xs)))
          ⊎ ((cancel_by_id id t db).1 ≡ db)
    go [] e = inr (ap (λ z. record db { notifications = z }) (update_none _ _ db.notifications e))
    go (x ∷ xs) e = inl (x, xs, ap ok e)

module _ (env : Services) (steady : (k : ℕ) → env.fault k ≡ answered) where
  pub exec-db_steady :
      {E A : Type 0} (lost : E) (stmt : ℕ → Database → Result E A × Database) (w : W env)
      → (exec env lost stmt w).1.db ≡ (stmt (env.db_clock w.step) w.db).1
  exec-db_steady lost stmt w = ap (λ x. x.1.db) (exec-answered env lost stmt w (steady w.step))

  pub exec-result_steady :
      {E A : Type 0} (lost : E) (stmt : ℕ → Database → Result E A × Database) (w : W env)
      → (exec env lost stmt w).0 ≡ (stmt (env.db_clock w.step) w.db).0
  exec-result_steady lost stmt w = ap (λ x. x.0) (exec-answered env lost stmt w (steady w.step))

  cancelled_no_error :
      (id : ℕ) (r : Result PgError (List Row)) (x : Row) (xs : List Row) (w : W env) (e : Error)
      → r ≡ ok (x ∷ xs)
      → (Notifications.cancel_outcome env id r w).0 ≡ err e
      → ⊥
  unfolding Notifications.cancel_outcome
  cancelled_no_error id (err y) x xs w e a b = cc
  cancelled_no_error id (ok []) x xs w e a b = cc
  cancelled_no_error id (ok (y ∷ ys)) x xs w e a b = cc

  pub cancel-Refuses : (id : ℕ) (w : W env) → Refuses env w.db (Notifications.cancel env id w)
  unfolding Notifications.cancel
  cancel-Refuses id w e told =
      let ran = exec env failure (cancel_by_id id) w in
      elim (cancel_cases id (env.db_clock w.step) w.db) [
        | inl (x, xs, some_row) ↦ absurd (
            cancelled_no_error id ran.0 x xs ran.1 e
              (exec-result_steady failure (cancel_by_id id) w ∙ some_row) told)
        | inr same ↦
            cancel_outcome-db env id ran.0 ran.1 ∙ exec-db_steady failure (cancel_by_id id) w ∙ same
      ]

  pub create_template-refuses :
      (t : Template) (w : W env) (e : Error)
      → (create_template env t w).0.1 ≡ err e
      → (create_template env t w).1.db ≡ w.db
  unfolding create_template now next_uuid
  create_template-refuses t w e told =
      let w2 = (next_uuid env (now env w).1).1 in
      let row = to_template_row (create_template env t w).0.0 in
      elim (insert_template_cases row w.db) [
        | inl stored ↦ absurd (
            not_inserted _ e
              (exec-result_steady failure (λ (k : ℕ). insert_template row) w2 ∙ stored) told)
        | inr same ↦ exec-db_steady failure (λ (k : ℕ). insert_template row) w2 ∙ same
      ]

  set_columns-Refuses :
      (id : ℕ) (req : UpdateTemplateRequest) (w : W env)
      → Refuses env w.db (set_columns env id req w)
  unfolding set_columns now
  set_columns-Refuses id req w e told =
      let w1 = (now env w).1 in
      let stmt : ℕ → Statement (Option TemplateRow) =
        λ _. update_template_by_id req (to_micros (env.clock w.step)) id in
      elim (update_template_cases req (to_micros (env.clock w.step)) id w.db) [
        | inl (row, set_some) ↦
            absurd (not_updated _ row e (exec-result_steady failure stmt w1 ∙ set_some) told)
        | inr same ↦ exec-db_steady failure stmt w1 ∙ same
      ]

  pub update_template-Refuses :
      (id : ℕ) (req : UpdateTemplateRequest) (w : W env)
      → Refuses env w.db (update_template env id req w)
  unfolding update_template
  update_template-Refuses id req w = elim (Bool-cases (is_empty_update req)) [
    | inl none_set ↦ rw none_set (λ e told. ap (λ v. v.db) (get_template-Later env id w).1)
    | inr some_set ↦ rw some_set (set_columns-Refuses id req w)
  ]

  decided-Refuses :
      (there used : Bool) (id : ℕ) (w : W env) (e : Error)
      → (if there
          then (if used
              then Refused env steady (delete_template env id w) w
              else Deleted env steady id (delete_template env id w) w)
          else Missing env steady (delete_template env id w) w)
      → (delete_template env id w).0 ≡ err e
      → (delete_template env id w).1.db ≡ w.db
  decided-Refuses false used id w e known told = known.1
  decided-Refuses true true id w e known told = known.1
  decided-Refuses true false id w e known told = cc (sym known.0 ∙ told)

  pub delete_template-Refuses : (id : ℕ) (w : W env) → Refuses env w.db (delete_template env id w)
  delete_template-Refuses id w e told =
      decided-Refuses (any (is_template id) w.db.templates) (any (refers_to id) w.db.notifications)
        id w e (delete_template_decides env steady id w) told
