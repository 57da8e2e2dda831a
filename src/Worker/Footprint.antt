-- ===== src/Worker/Footprint.antt =====
-- The calls that handling a message is made of. A relation on worlds that is reflexive and transitive
-- and holds across each of these calls, for one notification and one message, holds across `handle`;
-- the modules beside this one choose the relation.
use event_driven_notificatio.Prelude.{
  subst, [], ℕ, ◌+◌, ◌≡◌, refl, sym, subst, Bool-cases, Result-cases, inl, inr, Option, none, some,
}
use event_driven_notificatio.Prelude.Text.{Str}
use event_driven_notificatio.Domain.{Notification, Status, DeliveryAttempt, processing}
use event_driven_notificatio.Services.{Services, W, Metric, now, count_metric}
use event_driven_notificatio.Repository.Notifications.{
  get_by_id, update_status, increment_attempt, create_delivery_attempt,
}
use event_driven_notificatio.Repository.Reading.{get_by_id-id}
use event_driven_notificatio.Delivery.Retry.{retry_at, should_retry}
use event_driven_notificatio.Delivery.Providers.{Provider, send, lookup, SendError}
use event_driven_notificatio.Queue.Producer.{enqueue_delayed}
use event_driven_notificatio.Queue.Consumer.{Message}
use event_driven_notificatio.Queue.Dlq
use event_driven_notificatio.Websocket.Hub.{broadcast}
use event_driven_notificatio.Worker.Dispatcher.{
  Dispatcher, record_attempt, ack_message, succeed, schedule_retry, give_up, settle,
  attempt_delivery, refuse_channel, deliver, handle, is_final,
}

module _ (env : Services) where
  -- Every call but the request to the provider.
  pub record Quiet (R : W env → W env → Type 0) (msg : Message) (id : ℕ) : Type 0 where
    pub same : (w : W env) → R w w
    pub chain : (a b c : W env) → R a b → R b c → R a c
    pub read : (w : W env) → R w (get_by_id env id w).1
    pub update : (s : Status) (e : Str) (w : W env) → R w (update_status env id s e w).1
    pub increment : (w : W env) → R w (increment_attempt env id w).1
    pub attempt :
        (a : DeliveryAttempt) (w : W env)
        → a.notification_id ≡ id
        → R w (create_delivery_attempt env a w).1
    pub clock : (w : W env) → R w (now env w).1
    pub retry : (n : ℕ) (w : W env) → R w (retry_at env n w).1
    pub metric : (m : Metric) (w : W env) → R w (count_metric env m w).1
    pub acked : (w : W env) → R w (ack_message env msg w).1
    pub delay : (c p : Str) (t : ℕ) (w : W env) → R w (enqueue_delayed env id c p t w).1
    pub dead : (c e : Str) (w : W env) → R w (Dlq.push env id c e w).1
    pub tell : (s : Str) (w : W env) → R w (broadcast env id s w).1

  pub record Allows (R : W env → W env → Type 0) (msg : Message) (id : ℕ) : Type 0 where
    pub quiet : Quiet R msg id
    pub open quiet use *
    pub post : (p : Provider) (n : Notification) (w : W env) → R w (send env p n w).1

  module _ (R : W env → W env → Type 0) (msg : Message) (n : Notification)
      (Q : Quiet R msg n.id) where
    open Q use {chain, update, retry, metric, acked, delay, dead, tell}

    succeed-moves : (w : W env) → R w (succeed env msg n w).1
    unfolding succeed
    succeed-moves w =
        chain _ _ _ (update _ _ _) (chain _ _ _ (acked _) (chain _ _ _ (metric _ _) (tell _ _)))

    schedule_retry-moves : (e : Str) (w : W env) → R w (schedule_retry env n e w).1
    unfolding schedule_retry
    schedule_retry-moves e w = chain _ _ _ (retry _ _) (
        chain _ _ _ (update _ _ _)
          (chain _ _ _ (delay _ _ _ _) (chain _ _ _ (metric _ _) (tell _ _))))

    give_up-moves : (e : Str) (w : W env) → R w (give_up env n e w).1
    unfolding give_up
    give_up-moves e w =
        chain _ _ _ (update _ _ _) (
          chain _ _ _ (dead _ _ _) (chain _ _ _ (metric _ _) (chain _ _ _ (metric _ _) (tell _ _))))

    pub settle-moves : (e : Option SendError) (w : W env) → R w (settle env msg n e w).1
    unfolding settle
    settle-moves none w = succeed-moves w
    settle-moves (some e) w = elim (Bool-cases (should_retry (n.attempt_count + 1) n.max_retries)) [
      | inl again ↦ rw again (chain _ _ _ (schedule_retry-moves _ _) (acked _))
      | inr over ↦ rw over (chain _ _ _ (give_up-moves _ _) (acked _))
    ]

    pub refuse_channel-moves : (w : W env) → R w (refuse_channel env msg n w).1
    unfolding refuse_channel
    refuse_channel-moves w = chain _ _ _ (update _ _ _) (acked _)

  module _ (R : W env → W env → Type 0) (msg : Message) (n : Notification)
      (A : Allows R msg n.id) where
    open A.quiet use {chain, update, increment, attempt, clock, metric}
    open A use {post}

    attempt_delivery-moves : (p : Provider) (w : W env) → R w (attempt_delivery env p msg n w).1
    unfolding attempt_delivery record_attempt
    attempt_delivery-moves p w = chain _ _ _ (clock _) (
        chain _ _ _ (post _ _ _) (
          chain _ _ _ (clock _) (
            chain _ _ _ (metric _ _) (
              chain _ _ _ (increment _)
                (chain _ _ _ (attempt _ _ refl) (settle-moves R msg n A.quiet _ _))))))

    pub deliver-moves : (d : Dispatcher) (w : W env) → R w (deliver env d msg n w).1
    unfolding deliver
    deliver-moves d w =
        chain _ _ _ (update processing [] w) (rest (lookup n.channel d.providers) refl)
      where
        w' : W env
        w' = (update_status env n.id processing [] w).1

        rest :
            (o : Option Provider)
            → lookup n.channel d.providers ≡ o
            → R w' (deliver env d msg n w).1
        rest none e = rw (e) (refuse_channel-moves R msg n A.quiet w')
        rest (some p) e = rw (e) (attempt_delivery-moves p w')

  -- A message is handled by such calls alone, whichever branch is taken and whichever calls fail.
  pub handle-moves :
      (R : W env → W env → Type 0) (msg : Message) (id : ℕ)
      → Allows R msg id
      → (d : Dispatcher) (w : W env) → R w (handle env d msg id w).1
  unfolding handle
  handle-moves R msg id A d w = elim (Result-cases (get_by_id env id w).0) [
    | inr (e, failed_read) ↦ rw failed_read (A.quiet.chain _ _ _ (A.quiet.read w) (A.quiet.acked _))
    | inl (n, found) ↦ rw found (elim (Bool-cases (is_final n.status)) [
      | inl final ↦ rw final (A.quiet.chain _ _ _ (A.quiet.read w) (A.quiet.acked _))
      | inr open_status ↦ rw open_status (
          A.quiet.chain _ _ _ (A.quiet.read w) (
            deliver-moves R msg n
              (subst (λ i. Allows R msg i) (sym (get_by_id-id env id w found)) A) d _))
    ])
  ]
