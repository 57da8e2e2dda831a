-- ===== src/Service/Refusing.antt =====
-- What the operations that report an error have done to the tables, where the calls are answered.
use event_driven_notificatio.Prelude.{
  ℕ, ◌≡◌, inl, inr, refl, ap, sym, ◌∙◌, ltb, length, Bool-cases, Option, none, some, List, Result,
  ok, err,
}
use event_driven_notificatio.Domain.{
  Error, Notification, CreateNotificationRequest, BatchCreateRequest, channel_valid, priority_valid,
}
use event_driven_notificatio.Services.{Services, Database, W, answered, exec, now, next_uuid}
use event_driven_notificatio.Repository.Rows.{to_row}
use event_driven_notificatio.Repository.Sql.{failure, PgError, Statement, insert_notification}
use event_driven_notificatio.Repository.Notifications
use event_driven_notificatio.Repository.Notifications.{create_result}
use event_driven_notificatio.Repository.Batch.{
  Inserted, committed, commit, on_begun, insert_all, create_batch,
}
use event_driven_notificatio.Repository.Inserting.{insert_all-db}
use event_driven_notificatio.Service.Notifications.{
  NotificationService, to_notification, apply_template, finish, store, check_and_store, create,
}
use event_driven_notificatio.Service.Batches.{
  Prepared, prepare_all, finish_batch, store_batch, run_batch, create_all,
}
use event_driven_notificatio.Service.Keeping.{insert_cases, apply_template-keeps, prepare_all-keeps}
use event_driven_notificatio.Repository.Refusing.{Refuses, exec-db_steady, exec-result_steady}

stored_no_error :
    (r : Result PgError (Unit {0})) (e : Error) → r ≡ ok tt → create_result r ≡ err e → ⊥
stored_no_error (ok u) e a b = cc
stored_no_error (err x) e a b = cc

module _ (env : Services) (steady : (k : ℕ) → env.fault k ≡ answered) where
  module _ (s : NotificationService) where
    finish-Refuses :
        (n : Notification) (r : Result Error (Unit {0})) (before : Database) (w : W env)
        → ((e : Error) → r ≡ err e → w.db ≡ before)
        → Refuses env before (finish env s n r w)
    unfolding finish
    finish-Refuses n (err x) before w h e told = h x refl
    finish-Refuses n (ok u) before w h e told = cc

    created-Refuses :
        (n : Notification) (w : W env) (e : Error)
        → (Notifications.create env n w).0.1 ≡ err e
        → (Notifications.create env n w).1.db ≡ w.db
    unfolding Notifications.create now next_uuid
    created-Refuses n w e told =
        let w2 = (next_uuid env (now env w).1).1 in
        let row = to_row env (Notifications.create env n w).0.0 in
        let after = exec-db_steady env steady failure (λ (t : ℕ). insert_notification row) w2 in
        let result =
          exec-result_steady env steady failure (λ (t : ℕ). insert_notification row) w2 in
        elim (insert_cases row w.db) [
          | inl stored ↦ absurd (stored_no_error _ e (result ∙ stored) told)
          | inr same ↦ after ∙ same
        ]

    store-Refuses :
        (n : Notification) (o : Option Error) (before : Database) (w : W env)
        → w.db ≡ before
        → Refuses env before (store env s n o w)
    unfolding store
    store-Refuses n (some x) before w same e told = same
    store-Refuses n none before w same e told =
        let made = Notifications.create env n w in
        finish-Refuses made.0.0 made.0.1 before made.1 (λ x h. created-Refuses n w x h ∙ same) e
          told

    check_and_store-Refuses :
        (r : Result Error Notification) (before : Database) (w : W env)
        → w.db ≡ before
        → Refuses env before (check_and_store env s r w)
    unfolding check_and_store
    check_and_store-Refuses (err x) before w same e told = same
    check_and_store-Refuses (ok n) before w same e told = store-Refuses n _ before w same e told

    pub create-Refuses :
        (req : CreateNotificationRequest) (w : W env) → Refuses env w.db (create env s req w)
    unfolding create
    create-Refuses req w =
        let (r, w1) = apply_template env req.template_id (to_notification s req) w in
        let same =
          apply_template-keeps env (λ db. db ≡ w.db) s req.template_id (to_notification s req) w
            refl in
        let last = check_and_store-Refuses r w.db w1 same in
        elim (Bool-cases (env.valid_struct req)) [
          | inr invalid ↦ rw invalid (λ e told. refl)
          | inl ok_struct ↦ elim (Bool-cases (channel_valid req.channel)) [
            | inr invalid ↦ rw (ok_struct, invalid) (λ e told. refl)
            | inl ok_channel ↦ elim (Bool-cases (priority_valid req.priority)) [
              | inr invalid ↦ rw (ok_struct, ok_channel, invalid) (λ e told. refl)
              | inl ok_priority ↦ rw (ok_struct, ok_channel, ok_priority) last
            ]
          ]
        ]

    commit-Refuses :
        (x : Result Error Inserted) (before : Database) (w : W env)
        → w.db ≡ before
        → Refuses env before (commit env x w)
    unfolding commit
    commit-Refuses (err x) before w same e told = same
    commit-Refuses (ok (ns, t)) before w same e told =
        let swap : ℕ → Statement (Unit {0}) = λ _ db. (ok tt, t) in
        cc (sym (ap (committed env ns) (exec-result_steady env steady failure swap w)) ∙ told)

    on_begun-Refuses :
        (ns : List Notification) (r : Result PgError Database) (before : Database) (w : W env)
        → w.db ≡ before
        → Refuses env before (on_begun env ns r w)
    unfolding on_begun now
    on_begun-Refuses ns (err x) before w same e told = same
    on_begun-Refuses ns (ok t) before w same e told =
        let w1 = (now env w).1 in
        let inserted = insert_all env (env.clock w.step) ns t w1 in
        commit-Refuses inserted.0 before inserted.1
          (insert_all-db env (env.clock w.step) ns t w1 ∙ same) e told

    create_batch-Refuses :
        (ns : List Notification) (w : W env) → Refuses env w.db (create_batch env ns w)
    unfolding create_batch
    create_batch-Refuses ns w =
        let begin_ : ℕ → Statement Database = λ _ db. (ok db, db) in
        let began = exec env failure begin_ w in
        on_begun-Refuses ns began.0 w.db began.1 (exec-db_steady env steady failure begin_ w)

    finish_batch-Refuses :
        (r : Prepared) (before : Database) (w : W env)
        → ((e : Error) → r ≡ err e → w.db ≡ before)
        → Refuses env before (finish_batch env s r w)
    unfolding finish_batch
    finish_batch-Refuses (err x) before w h e told = h x refl
    finish_batch-Refuses (ok ns) before w h e told = cc

    store_batch-Refuses :
        (r : Prepared) (before : Database) (w : W env)
        → w.db ≡ before
        → Refuses env before (store_batch env s r w)
    unfolding store_batch
    store_batch-Refuses (err x) before w same e told = same
    store_batch-Refuses (ok ns) before w same e told =
        let (r, w') = create_batch env ns w in
        finish_batch-Refuses r before w' (λ x h. create_batch-Refuses ns w x h ∙ same) e told

    pub create_all-Refuses :
        (req : BatchCreateRequest) (w : W env) → Refuses env w.db (create_all env s req w)
    unfolding create_all run_batch next_uuid
    create_all-Refuses req w =
        let w1 = (next_uuid env w).1 in
        let batch_id = env.new_uuid w.step in
        let (r, w2) = prepare_all env s batch_id req.notifications w1 in
        let last =
          store_batch-Refuses r w.db w2
            (prepare_all-keeps env (λ db. db ≡ w.db) s batch_id req.notifications w1 refl) in
        elim (Bool-cases (env.valid_batch req)) [
          | inr invalid ↦ rw invalid (λ e told. refl)
          | inl valid ↦ elim (Bool-cases (ltb 1000 (length req.notifications))) [
            | inl large ↦ rw (valid, large) (λ e told. refl)
            | inr fits ↦ rw (valid, fits) last
          ]
        ]
