-- ===== src/Repository/Queries.antt =====
-- The methods that only read: what is left after them is the world, some calls later.
use event_driven_notificatio.Prelude.{◌+◌, ℕ, suc, ◌≡◌, refl, ap, ◌∙◌, List, Result, ok, err, arith}
use event_driven_notificatio.Domain.{NotificationFilter}
use event_driven_notificatio.Services.{
  Services, Row, AttemptRow, TemplateRow, Database, Fault, answered, refused, unacknowledged, W,
  exec, read_rows, redis_do,
}
use event_driven_notificatio.Repository.Sql.{PgError, failure, select_page, select_attempts}
use event_driven_notificatio.Repository.Notifications.{
  get_by_id, scan_all, scan_attempts, page_size, list, get_delivery_attempts,
}
use event_driven_notificatio.Repository.Templates.{
  select_template, select_templates, get_template, scan_templates, list_templates,
}
use event_driven_notificatio.Repository.Reading.{get_by_id-world}

module _ (env : Services) where
  -- Only the number of calls is another.
  abbrev pub Later : W env → W env → Type 0
  Later w w' = (k : ℕ) × (w' ≡ record w { step = k })

  pub Later-trans : (w w' w'' : W env) → Later w w' → Later w' w'' → Later w w''
  Later-trans w w' w'' (k, p) (k', q) = (k', q ∙ ap {A = W env} (λ v. record v { step = k' }) p)

  pub exec-Later :
      {E A : Type 0} (lost : E) (stmt : ℕ → Database → Result E A × Database) (w : W env)
      → ((t : ℕ) (db : Database) → (stmt t db).1 ≡ db)
      → Later w (exec env lost stmt w).1
  unfolding exec
  exec-Later lost stmt w reads = go (env.fault w.step) refl
    where
      same : (stmt (env.db_clock w.step) w.db).1 ≡ w.db
      same = reads (env.db_clock w.step) w.db

      go : (f : Fault) → env.fault w.step ≡ f → Later w (exec env lost stmt w).1
      go answered f =
          (suc w.step, rw (f, exec) (ap (λ db. record w { step = suc w.step; db = db }) same))
      go refused f = (suc w.step, rw (f, exec) refl)
      go unacknowledged f =
          (suc w.step, rw (f, exec) (ap (λ db. record w { step = suc w.step; db = db }) same))

  pub ping-Later : (w : W env) → Later w (redis_do env (λ r. (tt, r)) w).1
  unfolding redis_do
  ping-Later w = (suc w.step, ground arith)

  scan_all-Later : (r : Result PgError (List Row)) (w : W env) → Later w (scan_all env r w).1
  unfolding scan_all read_rows
  scan_all-Later (err e) w = (w.step, refl)
  scan_all-Later (ok rows) w = (suc w.step, refl)

  pub get_by_id-Later : (id : ℕ) (w : W env) → Later w (get_by_id env id w).1
  get_by_id-Later id w = (suc w.step, get_by_id-world env id w)

  select_page-reads :
      (filter : NotificationFilter) (limit t : ℕ) (db : Database)
      → (select_page filter limit db).1 ≡ db
  unfolding select_page
  select_page-reads filter limit t db = ground arith

  pub list-Later : (filter : NotificationFilter) (w : W env) → Later w (list env filter w).1
  unfolding list
  list-Later filter w =
      let queried = exec env failure (λ _. select_page filter (page_size filter.limit + 1)) w in
      Later-trans w queried.1 (list env filter w).1
        (exec-Later failure (λ _. select_page filter (page_size filter.limit + 1)) w
          (λ t db. select_page-reads filter _ t db))
        (scan_all-Later queried.0 queried.1)

  scan_attempts-Later :
      (r : Result PgError (List AttemptRow)) (w : W env) → Later w (scan_attempts env r w).1
  unfolding scan_attempts read_rows
  scan_attempts-Later (err e) w = (w.step, refl)
  scan_attempts-Later (ok rows) w = (suc w.step, refl)

  pub get_delivery_attempts-Later :
      (id : ℕ) (w : W env) → Later w (get_delivery_attempts env id w).1
  unfolding get_delivery_attempts select_attempts
  get_delivery_attempts-Later id w =
      let queried = exec env failure (λ _. select_attempts id) w in
      Later-trans w queried.1 (get_delivery_attempts env id w).1
        (exec-Later failure (λ _. select_attempts id) w (λ t db. refl))
        (scan_attempts-Later queried.0 queried.1)

  pub get_template-Later : (id : ℕ) (w : W env) → Later w (get_template env id w).1
  unfolding get_template select_template
  get_template-Later id w = exec-Later failure (λ _. select_template id) w (λ t db. refl)

  scan_templates-Later :
      (r : Result PgError (List TemplateRow)) (w : W env) → Later w (scan_templates env r w).1
  unfolding scan_templates read_rows
  scan_templates-Later (err e) w = (w.step, refl)
  scan_templates-Later (ok rows) w = (suc w.step, refl)

  pub list_templates-Later : (w : W env) → Later w (list_templates env w).1
  unfolding list_templates select_templates
  list_templates-Later w =
      let queried = exec env failure (λ _. select_templates env.collates) w in
      Later-trans w queried.1 (list_templates env w).1
        (exec-Later failure (λ _. select_templates env.collates) w (λ t db. refl))
        (scan_templates-Later queried.0 queried.1)
