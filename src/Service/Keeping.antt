-- ===== src/Service/Keeping.antt =====
-- What the service does to the tables, in one piece: what every insertion of a notification and its
-- update to queued keep, Create and CreateBatch keep.
use event_driven_notificatio.Prelude.{
  ℕ, ◌≡◌, ◌⊎◌, inl, inr, refl, sym, subst, ◌&&◌, ltb, length, Bool-cases, Option, none, some, List,
  [], ◌∷◌, All, Result, ok, err, arith,
}
use event_driven_notificatio.Domain.{
  Error, Notification, CreateNotificationRequest, BatchCreateRequest, pending, queued, is_status,
  channel_valid, priority_valid,
}
use event_driven_notificatio.Services.{Services, Row, Database, W, Action, now, next_uuid}
use event_driven_notificatio.Services.Effects.{exec-db, exec-ok, redis_do-SameButRedis}
use event_driven_notificatio.Repository.Rows.{to_row}
use event_driven_notificatio.Repository.Sql.{failure, insert_notification}
use event_driven_notificatio.Repository.Notifications
use event_driven_notificatio.Repository.RoundTrip.{ok_of_create_result}
use event_driven_notificatio.Repository.Templates.{select_template, get_template}
use event_driven_notificatio.Repository.Batch.{create_batch}
use event_driven_notificatio.Repository.Inserting.{Inserts}
use event_driven_notificatio.Repository.Atomic.{create_batch-Holds}
use event_driven_notificatio.Queue.Producer.{enqueue}
use event_driven_notificatio.Service.Notifications.{
  NotificationService, to_notification, apply_template, mark_queued, enqueue_created, finish, store,
  check_and_store, create,
}
use event_driven_notificatio.Service.Batches.{
  Prepared, to_member, prepare, and_prepare, prepare_all, enqueue_batch, finish_batch, store_batch,
  run_batch, create_all,
}

pub insert_cases :
    (row : Row) (db : Database)
    → ((insert_notification row db).0 ≡ ok tt) ⊎ ((insert_notification row db).1 ≡ db)
unfolding insert_notification
insert_cases row db = ground arith

module _ (env : Services) (P : Database → Type 0) (Q : Notification → Type 0)
    (step : Inserts env P Q) where
  pub create-keeps :
      (n : Notification) (w : W env)
      → P w.db
      → P (Notifications.create env n w).1.db
        × ((Notifications.create env n w).0.1 ≡ ok tt → Q (Notifications.create env n w).0.0)
  unfolding Notifications.create now next_uuid
  create-keeps n w h =
      let w2 = (next_uuid env (now env w).1).1 in
      let n' = (Notifications.create env n w).0.0 in
      let row = to_row env n' in
      let after : P (insert_notification row w.db).1 = elim (insert_cases row w.db) [
        | inl stored ↦ (step n' w.db h stored).0
        | inr same ↦ subst P (sym same) h
      ] in
      (
        exec-db env failure (λ (t : ℕ). insert_notification row) w2 P h after,
        λ e.
            (step n' w.db h (
              exec-ok env failure (λ (t : ℕ). insert_notification row) w2
                (ok_of_create_result _ e))).1,
      )

module _ (env : Services) (P : Database → Type 0) (s : NotificationService) where
  pub apply_template-keeps :
      (id : Option ℕ) (n : Notification) (w : W env) → P w.db → P (apply_template env id n w).1.db
  unfolding apply_template get_template select_template
  apply_template-keeps none n w h = h
  apply_template-keeps (some id) n w h = exec-db env failure (λ _. select_template id) w P h h

  prepare-keeps :
      (id : ℕ) (req : CreateNotificationRequest) (w : W env)
      → P w.db
      → P (prepare env s id req w).1.db
  unfolding prepare
  prepare-keeps id req w h =
      let kept = apply_template-keeps req.template_id (to_member s id req) w h in
      elim (Bool-cases (channel_valid req.channel)) [
        | inr invalid ↦ rw invalid h
        | inl ok_channel ↦ elim (Bool-cases (priority_valid req.priority)) [
          | inr invalid ↦ rw (ok_channel, invalid) h
          | inl ok_priority ↦ rw (ok_channel, ok_priority) kept
        ]
      ]

  and_prepare-keeps :
      (next : Action env Prepared) (r : Result Error Notification) (w : W env)
      → ((v : W env) → P v.db → P (next v).1.db)
      → P w.db
      → P (and_prepare env next r w).1.db
  unfolding and_prepare
  and_prepare-keeps next (err e) w keeps h = h
  and_prepare-keeps next (ok n) w keeps h = keeps w h

  pub prepare_all-keeps :
      (id : ℕ) (reqs : List CreateNotificationRequest) (w : W env)
      → P w.db
      → P (prepare_all env s id reqs w).1.db
  unfolding prepare_all
  prepare_all-keeps id [] w h = h
  prepare_all-keeps id (req ∷ reqs) w h =
      and_prepare-keeps (prepare_all env s id reqs) _ _ (λ v. prepare_all-keeps id reqs v)
        (prepare-keeps id req w h)

module _ (env : Services) (P : Database → Type 0) (Q : Notification → Type 0)
    (s : NotificationService)
    (mark : (n : Notification) (w : W env)
      → Q n
      → P w.db
      → P (Notifications.update_status env n.id queued [] w).1.db) where
  mark_queued-keeps :
      (n : Notification) (r : Result Error (Unit {0})) (w : W env)
      → Q n
      → P w.db
      → P (mark_queued env n r w).1.db
  unfolding mark_queued
  mark_queued-keeps n (err e) w q h = h
  mark_queued-keeps n (ok u) w q h = mark n w q h

  enqueue_created-keeps :
      (n : Notification) (w : W env) → Q n → P w.db → P (enqueue_created env s n w).1.db
  unfolding enqueue_created enqueue
  enqueue_created-keeps n w q h = elim (Bool-cases (is_status n.status pending && s.has_producer)) [
    | inl at_once ↦
        rw at_once (mark_queued-keeps n _ _ q (subst P (sym (redis_do-SameButRedis env _ w).db) h))
    | inr later ↦ rw later h
  ]

  pub enqueue_batch-keeps :
      (ns : List Notification) (w : W env) → All Q ns → P w.db → P (enqueue_batch env s ns w).1.db
  unfolding enqueue_batch
  enqueue_batch-keeps [] w q h = h
  enqueue_batch-keeps (n ∷ ns) w q h =
      enqueue_batch-keeps ns _ q.1 (enqueue_created-keeps n w q.0 h)

  module _ (step : Inserts env P Q) where
    finish-keeps :
        (n : Notification) (r : Result Error (Unit {0})) (w : W env)
        → (r ≡ ok tt → Q n)
        → P w.db
        → P (finish env s n r w).1.db
    unfolding finish
    finish-keeps n (err e) w q h = h
    finish-keeps n (ok u) w q h = enqueue_created-keeps n w (q refl) h

    store-keeps :
        (n : Notification) (o : Option Error) (w : W env) → P w.db → P (store env s n o w).1.db
    unfolding store
    store-keeps n (some e) w h = h
    store-keeps n none w h =
        let made = Notifications.create env n w in
        let (p, q) = create-keeps env P Q step n w h in finish-keeps made.0.0 made.0.1 made.1 q p

    check_and_store-keeps :
        (r : Result Error Notification) (w : W env) → P w.db → P (check_and_store env s r w).1.db
    unfolding check_and_store
    check_and_store-keeps (err e) w h = h
    check_and_store-keeps (ok n) w h = store-keeps n _ w h

    pub served-keeps :
        (req : CreateNotificationRequest) (w : W env) → P w.db → P (create env s req w).1.db
    unfolding create
    served-keeps req w h =
        let a = apply_template env req.template_id (to_notification s req) w in
        let kept =
          check_and_store-keeps a.0 a.1 (apply_template-keeps env P s req.template_id _ w h) in
        elim (Bool-cases (env.valid_struct req)) [
          | inr invalid ↦ rw invalid h
          | inl ok_struct ↦ elim (Bool-cases (channel_valid req.channel)) [
            | inr invalid ↦ rw (ok_struct, invalid) h
            | inl ok_channel ↦ elim (Bool-cases (priority_valid req.priority)) [
              | inr invalid ↦ rw (ok_struct, ok_channel, invalid) h
              | inl ok_priority ↦ rw (ok_struct, ok_channel, ok_priority) kept
            ]
          ]
        ]

    finish_batch-keeps :
        (r : Prepared) (w : W env)
        → ((ns : List Notification) → r ≡ ok ns → All Q ns)
        → P w.db
        → P (finish_batch env s r w).1.db
    unfolding finish_batch
    finish_batch-keeps (err e) w q h = h
    finish_batch-keeps (ok ns) w q h = enqueue_batch-keeps ns w (q ns refl) h

    store_batch-keeps : (r : Prepared) (w : W env) → P w.db → P (store_batch env s r w).1.db
    unfolding store_batch
    store_batch-keeps (err e) w h = h
    store_batch-keeps (ok ns) w h =
        let made = create_batch env ns w in
        let (p, q) = create_batch-Holds env P Q step ns w h in finish_batch-keeps made.0 made.1 q p

    pub batch-keeps :
        (req : BatchCreateRequest) (w : W env) → P w.db → P (create_all env s req w).1.db
    unfolding create_all run_batch next_uuid
    batch-keeps req w h =
        let w1 = (next_uuid env w).1 in
        let prepared = prepare_all env s (env.new_uuid w.step) req.notifications w1 in
        let kept =
          store_batch-keeps prepared.0 prepared.1
            (prepare_all-keeps env P s _ req.notifications w1 h) in
        elim (Bool-cases (env.valid_batch req)) [
          | inr invalid ↦ rw invalid h
          | inl valid ↦ elim (Bool-cases (ltb 1000 (length req.notifications))) [
            | inl large ↦ rw (valid, large) h
            | inr fits ↦ rw (valid, fits) kept
          ]
        ]
