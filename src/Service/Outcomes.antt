-- ===== src/Service/Outcomes.antt =====
-- What Create of the service reports, and what it leaves behind.
use event_driven_notificatio.Prelude.{
  [], ℕ, suc, ◌≡◌, ◌⊎◌, inl, inr, refl, ap, sym, ◌∙◌, subst, true, ◌&&◌, Bool-cases, Option, none,
  some, find, Result, ok, err,
}
use event_driven_notificatio.Domain.{
  Error, Notification, CreateNotificationRequest, channel_valid, priority_valid, pending, queued,
  stream_key, is_status,
}
use event_driven_notificatio.Services.{Services, Row, W, answered, now, next_uuid}
use event_driven_notificatio.Services.Effects.{exec-SameButTables, redis_do-answered}
use event_driven_notificatio.Repository.Rows.{to_row}
use event_driven_notificatio.Repository.Sql.{has_id, set_status}
use event_driven_notificatio.Repository.Notifications
use event_driven_notificatio.Repository.RoundTrip.{create-inserts}
use event_driven_notificatio.Queue.Producer.{enqueue, entry}
use event_driven_notificatio.Validator.Rules.{IsAcceptable}
use event_driven_notificatio.Worker.Answered.{At, update-At, update_status-Same}
use event_driven_notificatio.Repository.Templates.{get_template}
use event_driven_notificatio.Service.Notifications.{
  NotificationService, to_notification, first_status, apply_template, mark_queued, enqueue_created,
  create,
}
use event_driven_notificatio.Service.Creating.{create-Stored, apply_template-kept}

module _ (env : Services) (s : NotificationService) where
  mark_queued_lem :
      (n : Notification) (r : Result Error (Unit {0})) (w : W env)
      → ((mark_queued env n r w).0 ≡ n) ⊎ ((mark_queued env n r w).0 ≡ record n { status = queued })
  unfolding mark_queued
  mark_queued_lem n (err e) w = inl refl
  mark_queued_lem n (ok u) w = inr refl

  -- Only the status may have changed since it was stored.
  pub enqueue_created_lem :
      (n : Notification) (w : W env)
      → ((enqueue_created env s n w).0 ≡ n)
        ⊎ ((enqueue_created env s n w).0 ≡ record n { status = queued })
  unfolding enqueue_created
  enqueue_created_lem n w = elim (Bool-cases (is_status n.status pending && s.has_producer)) [
    | inl now_due ↦ rw now_due (mark_queued_lem n _ _)
    | inr later ↦ inl (rw later refl)
  ]

  abbrev pub Checked : Notification → Type 0
  Checked n =
      (channel_valid n.channel ≡ true)
      × (priority_valid n.priority ≡ true)
      × IsAcceptable env n.channel n.recipient n.subject n.body

  -- Whichever calls fail, a notification that Create reports has one of the three channels and one of
  -- the three priorities, and its content, after the template was applied, is acceptable to its channel.
  pub create_checks :
      (req : CreateNotificationRequest) (w : W env) (n : Notification)
      → (create env s req w).0 ≡ ok n
      → Checked n
  unfolding Notifications.create now next_uuid to_notification
  create_checks req w n h =
      let st = create-Stored env s req w n h in
      let w1 = (apply_template env req.template_id (to_notification s req) w).1 in
      let made = Notifications.create env st.before w1 in
      let kept =
        apply_template-kept env req.template_id (to_notification s req) w st.before st.applied in
      let before : Checked st.before = (
        ap channel_valid kept.channel ∙ st.channel,
        ap priority_valid kept.priority ∙ st.priority,
        st.accepted,
      ) in
      elim (enqueue_created_lem made.0.0 made.1) [
        | inl same ↦ subst Checked (sym same ∙ st.outcome.0) before
        | inr marked ↦ subst Checked (sym marked ∙ st.outcome.0) before
      ]

module _ (env : Services) (steady : (k : ℕ) → env.fault k ≡ answered) where
  template-redis :
      (id : Option ℕ) (n : Notification) (w : W env) → (apply_template env id n w).1.redis ≡ w.redis
  unfolding apply_template get_template
  template-redis none n w = refl
  template-redis (some id) n w = (exec-SameButTables env _ _ w).redis

  create-redis : (n : Notification) (w : W env) → (Notifications.create env n w).1.redis ≡ w.redis
  unfolding Notifications.create now next_uuid
  create-redis n w = (exec-SameButTables env _ _ _).redis

  module _ (s : NotificationService) where
    enqueued :
        (n : Notification) (w : W env) (row : Row)
        → n.status ≡ pending
        → s.has_producer ≡ true
        → At env n.id w row
        → let last = enqueue_created env s n w in
          (t : ℕ) × (last.0 ≡ record n { status = queued })
          × At env n.id last.1 (set_status queued [] t row)
          × (last.1.redis ≡ env.xadd (stream_key n.priority) (entry env n.id n.channel) w.redis)
    unfolding enqueue_created mark_queued enqueue
    enqueued n w row waiting producer at =
        let r' = env.xadd (stream_key n.priority) (entry env n.id n.channel) w.redis in
        let w3 : W env = record w { step = suc w.step; redis = r' } in
        let sent : enqueue env n.id n.channel n.priority w ≡ (ok tt, w3) =
          redis_do-answered env _ w (steady w.step) in
        let chosen : (is_status n.status pending && s.has_producer) ≡ true =
          rw (waiting, producer) refl in
        let (t, at') = update-At env steady n.id queued [] w3 row at in
        let whole : enqueue_created env s n w ≡ (
          record n { status = queued },
          (Notifications.update_status env n.id queued [] w3).1,
        ) =
          rw chosen (rw sent refl) in
        (
          t,
          ap (λ x. x.0) whole,
          ap (λ x. find (has_id n.id) x.1.db.notifications) whole ∙ at',
          ap (λ x. x.1.redis) whole ∙ (update_status-Same env n.id queued [] w3).redis,
        )

    -- A notification in the table and in a stream: queued, under its ID, with one entry added to the
    -- stream of its priority and nothing else changed in Redis.
    abbrev pub Queued : (w w' : W env) → Notification → Type 0
    Queued w w' n =
        (n.status ≡ queued)
        × (row : Row) × At env n.id w' row
        × (row.status ≡ queued)
        × (row.channel ≡ n.channel)
        × (row.priority ≡ n.priority)
        × (w'.redis ≡ env.xadd (stream_key n.priority) (entry env n.id n.channel) w.redis)

    -- Where every call is answered and there is a producer, a notification that Create reports for a
    -- request without a schedule is queued: its row is found under its ID with that status, channel and
    -- priority, the stream of its priority has its entry, and nothing else has changed in Redis.
    pub create_queues :
        (req : CreateNotificationRequest) (w : W env) (n : Notification)
        → (create env s req w).0 ≡ ok n
        → req.scheduled_at ≡ none
        → s.has_producer ≡ true
        → Queued w (create env s req w).1 n
    unfolding Notifications.create now next_uuid to_notification to_row set_status
    create_queues req w n h at_once producer =
        let st = create-Stored env s req w n h in
        let w1 = (apply_template env req.template_id (to_notification s req) w).1 in
        let made = Notifications.create env st.before w1 in
        let kept =
          apply_template-kept env req.template_id (to_notification s req) w st.before st.applied in
        let waiting : made.0.0.status ≡ pending = kept.status ∙ ap first_status at_once in
        let row = to_row env made.0.0 in
        let (t, last, at, redis) =
          enqueued made.0.0 made.1 row waiting producer
            (create-inserts env steady st.before w1 st.inserted) in
        let before : made.1.redis ≡ w.redis =
          create-redis st.before w1 ∙ template-redis req.template_id (to_notification s req) w in
        subst (Queued w (create env s req w).1) (sym last ∙ st.outcome.0) (
          refl,
          set_status queued [] t row,
          ap (λ v. find (has_id made.0.0.id) v.db.notifications) st.outcome.1 ∙ at,
          refl,
          refl,
          refl,
          ap (λ v. v.redis) st.outcome.1
              ∙ redis
              ∙ ap
                  (env.xadd (stream_key made.0.0.priority) (entry env made.0.0.id made.0.0.channel))
                  before,
        )
