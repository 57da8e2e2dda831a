-- ===== src/Service/AllOrNone.antt =====
-- CreateBatch of the service: all of the batch is stored, or none of it.
use event_driven_notificatio.Prelude.{
  ℕ, ◌≡◌, ◌⊎◌, ◌≤◌, refl, ap, sym, ◌∙◌, subst, false, ltb, Bool-cases, inl, inr, List, [], ◌∷◌, map,
  length, is_ok, ok, err, arith, Bool, All,
}
use event_driven_notificatio.Domain.{
  internal, Notification, CreateNotificationRequest, BatchCreateRequest, queued,
}
use event_driven_notificatio.Services.{Services, Row, Database, W, now, next_uuid}
use event_driven_notificatio.Services.Effects.{exec-db}
use event_driven_notificatio.Repository.Rows.{to_row, to_micros}
use event_driven_notificatio.Repository.Sql.{failure, update_where, set_status, update_status_by_id}
use event_driven_notificatio.Repository.Notifications
use event_driven_notificatio.Repository.Batch.{create_batch}
use event_driven_notificatio.Repository.Inserting.{with_rows}
use event_driven_notificatio.Repository.Atomic.{AllOrNone, create_batch-atomic}
use event_driven_notificatio.Service.Notifications.{NotificationService, enqueue_created}
use event_driven_notificatio.Service.Outcomes.{enqueue_created_lem}
use event_driven_notificatio.Service.Batches.{
  Prepared, prepare_all, enqueue_batch, finish_batch, store_batch, run_batch, create_all,
}
use event_driven_notificatio.Service.Keeping.{prepare_all-keeps, enqueue_batch-keeps}
use event_driven_notificatio.Service.Preparing.{AreFor, prepare_all-AreFor, stamped-AreFor}

-- A row without its status and the time of its last update.
abbrev pub but_status : Row → Row
but_status row = record row { status = queued; updated_at = 0 }

-- The tables are the same but for the status of notifications and the times of their last updates.
pub record SameButStatus (db db' : Database) : Type 0 where
  pub notifications : map but_status db'.notifications ≡ map but_status db.notifications
  pub attempts : db'.attempts ≡ db.attempts
  pub templates : db'.templates ≡ db.templates

update_where-but_status :
    (p : Row → Bool) (time : ℕ) (rows : List Row)
    → map but_status (update_where p (set_status queued [] time) rows) ≡ map but_status rows
unfolding update_where set_status
update_where-but_status p time [] = refl
update_where-but_status p time (r ∷ rows) = elim (Bool-cases (p r)) [
  | inl hit ↦ rw hit (ap (λ z. but_status r ∷ z) (update_where-but_status p time rows))
  | inr miss ↦ rw miss (ap (λ z. but_status r ∷ z) (update_where-but_status p time rows))
]

update-SameButStatus :
    (id time : ℕ) (db db' : Database)
    → SameButStatus db db'
    → SameButStatus db (update_status_by_id queued [] time id db').1
unfolding update_status_by_id
update-SameButStatus id time db db' h = record {
  notifications = update_where-but_status _ time db'.notifications ∙ h.notifications;
  attempts = h.attempts;
  templates = h.templates;
}

module _ (env : Services) where
  mark-SameButStatus :
      (db : Database) (n : Notification) (w : W env)
      → SameButStatus db w.db
      → SameButStatus db (Notifications.update_status env n.id queued [] w).1.db
  unfolding Notifications.update_status now
  mark-SameButStatus db n w h =
      exec-db env failure
        (λ (k : ℕ). update_status_by_id queued [] (to_micros (env.clock w.step)) n.id) _
        (SameButStatus db) h (update-SameButStatus n.id _ db w.db h)

  as_before :
      (before db : Database) (ns : List Notification)
      → db ≡ with_rows (map (to_row env) ns) before
      → SameButStatus (with_rows (map (to_row env) ns) before) db
  as_before before db ns e =
      subst (SameButStatus (with_rows (map (to_row env) ns) before)) (sym e)
        (record { notifications = refl; attempts = refl; templates = refl })

  All-unit : (ns : List Notification) → All (λ n. Unit {0}) ns
  All-unit [] = tt
  All-unit (n ∷ ns) = (tt, All-unit ns)

  module _ (s : NotificationService) where
    enqueue_created-id : (n : Notification) (w : W env) → (enqueue_created env s n w).0.id ≡ n.id
    enqueue_created-id n w = elim (enqueue_created_lem env s n w) [
      | inl same ↦ ap (λ m. m.id) same
      | inr marked ↦ ap (λ m. m.id) marked
    ]

    enqueue_batch-ids :
        (ns : List Notification) (w : W env)
        → map (λ n. n.id) (enqueue_batch env s ns w).0 ≡ map (λ n. n.id) ns
    unfolding enqueue_batch
    enqueue_batch-ids [] w = refl
    enqueue_batch-ids (n ∷ ns) w =
        ap (λ i. i ∷ map (λ m. m.id) (enqueue_batch env s ns (enqueue_created env s n w).1).0)
          (enqueue_created-id n w)
        ∙ ap (λ is. n.id ∷ is) (enqueue_batch-ids ns (enqueue_created env s n w).1)

    -- What is reported: the notifications that were stored, by their IDs, or an error that is none of
    -- the domain's.
    abbrev Reports : List Notification → Prepared → Type 0
    Reports ns r =
        ((ns' : List Notification) × (r ≡ ok ns') × (map (λ n. n.id) ns' ≡ map (λ n. n.id) ns))
        ⊎ (r ≡ err internal)

    -- No row of the batch, or one for each of its requests.
    abbrev pub WholeOrNone : List CreateNotificationRequest → Database → Prepared × W env → Type 0
    WholeOrNone reqs before (r, w') =
        ((is_ok r ≡ false) × (w'.db ≡ before))
        ⊎ ((batch_id : ℕ) × (ns : List Notification) × (AreFor env batch_id reqs ns
              × SameButStatus (with_rows (map (to_row env) ns) before) w'.db
              × Reports ns r))

    finish-WholeOrNone :
        (batch_id : ℕ) (reqs : List CreateNotificationRequest) (ns : List Notification)
        (before : Database) (r : Prepared) (w : W env)
        → AreFor env batch_id reqs ns
        → AllOrNone env ns before (r, w)
        → WholeOrNone reqs before (finish_batch env s r w)
    unfolding finish_batch
    finish-WholeOrNone batch_id reqs ns before (err e) w prepared (inl none_stored) =
        inl (refl, none_stored.1)
    finish-WholeOrNone batch_id reqs ns before (ok ns0) w prepared (inl none_stored) = cc
    finish-WholeOrNone batch_id reqs ns before (err e) w prepared
          (inr (time, ns', (stamps, after, inl told))) =
        cc
    finish-WholeOrNone batch_id reqs ns before (err e) w prepared
          (inr (time, ns', (stamps, after, inr lost))) =
        inr (
          batch_id,
          ns',
          (
            stamped-AreFor env batch_id time reqs ns ns' prepared stamps,
            as_before before w.db ns' after,
            inr lost,
          ),
        )
    finish-WholeOrNone batch_id reqs ns before (ok ns0) w prepared
          (inr (time, ns', (stamps, after, inr lost))) =
        cc
    finish-WholeOrNone batch_id reqs ns before (ok ns0) w prepared
          (inr (time, ns', (stamps, after, inl told))) =
        let same : ns0 ≡ ns' = cc in
        inr (
          batch_id,
          ns',
          (
            stamped-AreFor env batch_id time reqs ns ns' prepared stamps,
            enqueue_batch-keeps env (SameButStatus (with_rows (map (to_row env) ns') before))
                (λ n. Unit) s (λ n v u h. mark-SameButStatus _ n v h) ns0 w (All-unit ns0)
                (as_before before w.db ns' after),
            inl (
              (enqueue_batch env s ns0 w).0,
              refl,
              enqueue_batch-ids ns0 w ∙ ap (map (λ n. n.id)) same,
            ),
          ),
        )

    store-WholeOrNone :
        (batch_id : ℕ) (reqs : List CreateNotificationRequest) (before : Database) (r : Prepared)
        (w : W env)
        → ((ns : List Notification) → r ≡ ok ns → AreFor env batch_id reqs ns)
        → w.db ≡ before
        → WholeOrNone reqs before (store_batch env s r w)
    unfolding store_batch
    store-WholeOrNone batch_id reqs before (err e) w prepared same = inl (refl, same)
    store-WholeOrNone batch_id reqs before (ok ns) w prepared same =
        let (r, w') = create_batch env ns w in
        finish-WholeOrNone batch_id reqs ns before r w' (prepared ns refl) (
          subst (λ db. AllOrNone env ns db (create_batch env ns w)) same
            (create_batch-atomic env ns w))

    -- Whichever calls fail, CreateBatch of the service leaves the tables as they were, and reports an
    -- error; or the batch is not above 1000 requests, and there is one row more for each of them, in
    -- their order: under one batch ID, with the channel and priority of the request, which are valid,
    -- and a content that is acceptable to its channel. Nothing else in the tables is changed but the
    -- status and the update time of notifications. In the second case it reports the notifications that
    -- were stored, or an error that is none of the domain's.
    pub create_all-WholeOrNone :
        (req : BatchCreateRequest) (w : W env)
        → (((is_ok (create_all env s req w).0 ≡ false) × ((create_all env s req w).1.db ≡ w.db))
            ⊎ ((length req.notifications ≤ 1000)
                × WholeOrNone req.notifications w.db (create_all env s req w)))
    unfolding create_all run_batch next_uuid
    create_all-WholeOrNone req w =
        let w1 = (next_uuid env w).1 in
        let batch_id = env.new_uuid w.step in
        let (r, w2) = prepare_all env s batch_id req.notifications w1 in
        let stored : WholeOrNone req.notifications w.db (store_batch env s r w2) =
          store-WholeOrNone batch_id req.notifications w.db r w2
            (λ ns e. prepare_all-AreFor env s batch_id req.notifications w1 ns e)
            (prepare_all-keeps env (λ db. db ≡ w.db) s batch_id req.notifications w1 refl) in
        elim (Bool-cases (env.valid_batch req)) [
          | inr invalid ↦ rw invalid (inl (refl, refl))
          | inl valid ↦ elim (Bool-cases (ltb 1000 (length req.notifications))) [
            | inl large ↦ rw (valid, large) (inl (refl, refl))
            | inr fits ↦ rw (valid, fits) (inr (ground arith, stored))
          ]
        ]
