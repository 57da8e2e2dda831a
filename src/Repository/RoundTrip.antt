-- ===== src/Repository/RoundTrip.antt =====
-- Create followed by GetByID.
use event_driven_notificatio.Prelude.{
  Result, ℕ, suc, ◌≡◌, refl, sym, ap, ◌∙◌, none, some, [], ◌∷◌, ok, err, find, arith,
}
use event_driven_notificatio.Prelude.Text.{Str}
use event_driven_notificatio.Domain.{Notification}
use event_driven_notificatio.Services.{Services, Row, Database, W, answered, now, next_uuid}
use event_driven_notificatio.Services.Laws.{JsonLaws}
use event_driven_notificatio.Services.Effects.{exec-answered}
use event_driven_notificatio.Repository.Rows.{
  nil_if_empty, or_empty, to_micros, opt_micros, to_row, scan_vars, scan_notification,
}
use event_driven_notificatio.Repository.Sql.{has_id, failure, PgError, insert_notification}
use event_driven_notificatio.Repository.Lookup.{find-append_new}
use event_driven_notificatio.Repository.Reading.{get_by_id-answered}
use event_driven_notificatio.Repository.Notifications.{create_result, create, get_by_id}

-- What the tables hold of a notification: times to the microsecond, and none of the columns that the
-- INSERT leaves out.
abbrev pub stored : Notification → Notification
stored n = record n {
  scheduled_at = opt_micros n.scheduled_at;
  last_error = [];
  delivered_at = none;
  created_at = to_micros n.created_at;
  updated_at = to_micros n.updated_at;
}

pub or_empty-nil_if_empty : (s : Str) → or_empty (nil_if_empty s) ≡ s
unfolding or_empty nil_if_empty
or_empty-nil_if_empty [] = refl
or_empty-nil_if_empty (c ∷ s) = refl

scan_vars-marshal :
    (env : Services) (n : Notification)
    → JsonLaws env n.template_vars
    → scan_vars env (env.marshal n.template_vars) ≡ n.template_vars
unfolding scan_vars
scan_vars-marshal env n json = ground (arith, json.unmarshal-marshal, json.marshal_nonempty)

pub scan-to_row :
    (env : Services) (n : Notification)
    → JsonLaws env n.template_vars
    → scan_notification env (to_row env n) ≡ stored n
unfolding scan_notification to_row
scan-to_row env n json = λ i. record {
  id = n.id;
  idempotency_key = or_empty-nil_if_empty n.idempotency_key i;
  batch_id = n.batch_id;
  channel = n.channel;
  priority = n.priority;
  recipient = n.recipient;
  subject = or_empty-nil_if_empty n.subject i;
  body = n.body;
  template_id = n.template_id;
  template_vars = scan_vars-marshal env n json i;
  status = n.status;
  scheduled_at = opt_micros n.scheduled_at;
  attempt_count = n.attempt_count;
  max_retries = n.max_retries;
  last_error = [];
  delivered_at = none;
  created_at = to_micros n.created_at;
  updated_at = to_micros n.updated_at;
}

insert-found :
    (row : Row) (db : Database)
    → (insert_notification row db).0 ≡ ok tt
    → find (has_id row.id) (insert_notification row db).1.notifications ≡ some row
unfolding insert_notification
insert-found row db e = ground (arith, find-append_new row.id row db.notifications refl)

pub ok_of_create_result : (r : Result PgError (Unit {0})) → create_result r ≡ ok tt → r ≡ ok tt
ok_of_create_result (ok u) e = refl
ok_of_create_result (err x) e = cc

module _ (env : Services) (steady : (k : ℕ) → env.fault k ≡ answered) where
  pub create-inserts :
      (n : Notification) (w : W env)
      → (create env n w).0.1 ≡ ok tt
      → find (has_id (create env n w).0.0.id) (create env n w).1.db.notifications
        ≡ some (to_row env (create env n w).0.0)
  unfolding create now next_uuid to_row
  create-inserts n w e =
      let n' = record n {
        id = env.new_uuid (suc w.step);
        created_at = env.clock w.step;
        updated_at = env.clock w.step;
      } in
      let w1 : W env = record w { step = suc (suc w.step) } in
      let row = to_row env n' in
      let run =
        exec-answered env failure (λ (t : ℕ). insert_notification row) w1
          (steady (suc (suc w.step))) in
      let inserted : (insert_notification row w.db).0 ≡ ok tt =
        ok_of_create_result _ (ap (λ x. create_result x.0) (sym run) ∙ e) in
      ap (λ x. find (has_id n'.id) x.1.db.notifications) run ∙ found row inserted
    where
      found :
          (row : Row)
          → (insert_notification row w.db).0 ≡ ok tt
          → find (has_id row.id) (insert_notification row w.db).1.notifications ≡ some row
      found row = insert-found row w.db

  -- A notification that Create reports as created is read back by GetByID under the ID that Create
  -- gave it: with every field as Create left it, except that times have lost what is below a
  -- microsecond and that there is no last error and no delivery time. It needs that JSON gives back
  -- its template variables, and that the calls are answered.
  pub get_by_id-create :
      (n : Notification) (w : W env)
      → JsonLaws env n.template_vars
      → (create env n w).0.1 ≡ ok tt
      → let n' = (create env n w).0.0 in (get_by_id env n'.id (create env n w).1).0 ≡ ok (stored n')
  unfolding create
  get_by_id-create n w json e =
      let n' = (create env n w).0.0 in
      let w' = (create env n w).1 in
      get_by_id-answered env n'.id w' (steady w'.step)
      ∙ rw (create-inserts n w e) (ap ok (scan-to_row env n' json))
