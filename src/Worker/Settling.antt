-- ===== src/Worker/Settling.antt =====
-- What follows a delivery attempt, where every call is answered: the row, Redis and the requests
-- afterwards, for a success, for a retry and for giving up.
use event_driven_notificatio.Prelude.{find, ℕ, suc, ◌+◌, ◌≡◌, ap, ◌∙◌, []}
use event_driven_notificatio.Prelude.Text.{Str}
use event_driven_notificatio.Domain.{Notification, delivered, queued, failed}
use event_driven_notificatio.Services.{Services, Row, W, answered, count_metric, now}
use event_driven_notificatio.Services.Effects.{redis_do-answered, redis_do-SameButRedis}
use event_driven_notificatio.Repository.Sql.{has_id, set_status}
use event_driven_notificatio.Repository.Notifications.{update_status}
use event_driven_notificatio.Delivery.Retry.{backoff, retry_at}
use event_driven_notificatio.Queue.Producer.{enqueue_delayed, member, delayed_key}
use event_driven_notificatio.Queue.Consumer.{Message, ack, consumer_group}
use event_driven_notificatio.Queue.Dlq
use event_driven_notificatio.Queue.Dlq.{dead_entry, dlq_stream}
use event_driven_notificatio.Websocket.Broadcast.{broadcast-SameButFrames}
use event_driven_notificatio.Worker.Dispatcher.{
  ack_message, succeed, schedule_retry, give_up, unix_milli,
}
use event_driven_notificatio.Worker.Answered.{At, update-At, update_status-Same}

-- The acknowledgement of a message, in Redis.
abbrev pub acked : (env : Services) → Message → env.Redis → env.Redis
acked env msg r = env.xack msg.stream_id consumer_group msg.message_id r

module _ (env : Services) where
  pub ack-kept :
      (msg : Message) (w : W env)
      → ((ack_message env msg w).1.db ≡ w.db)
        × ((ack_message env msg w).1.requests ≡ w.requests)
        × ((ack_message env msg w).1.frames ≡ w.frames)
  unfolding ack_message ack
  ack-kept msg w = let h = redis_do-SameButRedis env _ w in (h.db, h.requests, h.frames)

  pub delay-kept :
      (id : ℕ) (c p : Str) (t : ℕ) (w : W env)
      → ((enqueue_delayed env id c p t w).1.db ≡ w.db)
        × ((enqueue_delayed env id c p t w).1.requests ≡ w.requests)
  unfolding enqueue_delayed
  delay-kept id c p t w = let h = redis_do-SameButRedis env _ w in (h.db, h.requests)

  pub dead-kept :
      (id : ℕ) (c e : Str) (w : W env)
      → ((Dlq.push env id c e w).1.db ≡ w.db) × ((Dlq.push env id c e w).1.requests ≡ w.requests)
  unfolding Dlq.push
  dead-kept id c e w = let h = redis_do-SameButRedis env _ w in (h.db, h.requests)

  module _ (steady : (n : ℕ) → env.fault n ≡ answered) where
    pub ack-redis :
        (msg : Message) (w : W env) → (ack_message env msg w).1.redis ≡ acked env msg w.redis
    unfolding ack_message ack
    ack-redis msg w = ap (λ p. p.1.redis) (redis_do-answered env _ w (steady w.step))

    delay-redis :
        (id : ℕ) (c p : Str) (t : ℕ) (w : W env)
        → (enqueue_delayed env id c p t w).1.redis
          ≡ env.zadd delayed_key t (member env id c p) w.redis
    unfolding enqueue_delayed
    delay-redis id c p t w = ap (λ p. p.1.redis) (redis_do-answered env _ w (steady w.step))

    dead-redis :
        (id : ℕ) (c e : Str) (w : W env)
        → (Dlq.push env id c e w).1.redis ≡ env.xadd dlq_stream (dead_entry env id c e) w.redis
    unfolding Dlq.push
    dead-redis id c e w = ap (λ p. p.1.redis) (redis_do-answered env _ w (steady w.step))

    -- What one way to settle an attempt leaves: the row under the ID, Redis, and the requests as they
    -- were.
    pub record Leaves (id : ℕ) (w w' : W env) (row : Row) (r : env.Redis) : Type 0 where
      pub at : At env id w' row
      pub redis : w'.redis ≡ r
      pub requests : w'.requests ≡ w.requests

    pub succeed-Leaves :
        (msg : Message) (n : Notification) (w : W env) (row : Row)
        → At env n.id w row
        → (t : ℕ) × Leaves n.id w
            (succeed env msg n w).1
            (set_status delivered [] t row)
            (acked env msg w.redis)
    unfolding succeed count_metric
    succeed-Leaves msg n w row at =
        let (t, at1) = update-At env steady n.id delivered [] w row at in
        let w1 = (update_status env n.id delivered [] w).1 in
        let u = update_status-Same env n.id delivered [] w in
        let k = ack-kept msg w1 in
        let b = broadcast-SameButFrames env n.id _ _ in
        (
          t,
          record {
            at = ap (λ db. find (has_id n.id) db.notifications) (b.db ∙ k.0) ∙ at1;
            redis = b.redis ∙ ack-redis msg w1 ∙ ap (acked env msg) u.redis;
            requests = b.requests ∙ k.1 ∙ u.requests;
          },
        )

    pub schedule_retry-Leaves :
        (n : Notification) (e : Str) (w : W env) (row : Row)
        → At env n.id w row
        → (t : ℕ) × (k : ℕ) × Leaves n.id w
            (schedule_retry env n e w).1
            (set_status queued e t row)
            (env.zadd delayed_key
              (unix_milli (env.clock k + backoff (n.attempt_count + 1)))
              (member env n.id n.channel n.priority)
              w.redis)
    unfolding schedule_retry count_metric retry_at now
    schedule_retry-Leaves n e w row at =
        let w0 : W env = record w { step = suc w.step } in
        let (t, at1) = update-At env steady n.id queued e w0 row at in
        let w1 = (update_status env n.id queued e w0).1 in
        let u = update_status-Same env n.id queued e w0 in
        let at_ms = unix_milli (env.clock w.step + backoff (n.attempt_count + 1)) in
        let k = delay-kept n.id n.channel n.priority at_ms w1 in
        let b = broadcast-SameButFrames env n.id _ _ in
        (
          t,
          w.step,
          record {
            at = ap (λ db. find (has_id n.id) db.notifications) (b.db ∙ k.0) ∙ at1;
            redis =
                b.redis
                ∙ delay-redis n.id n.channel n.priority at_ms w1
                ∙ ap (env.zadd delayed_key at_ms (member env n.id n.channel n.priority)) u.redis;
            requests = b.requests ∙ k.1 ∙ u.requests;
          },
        )

    pub give_up-Leaves :
        (n : Notification) (e : Str) (w : W env) (row : Row)
        → At env n.id w row
        → (t : ℕ) × Leaves n.id w
            (give_up env n e w).1
            (set_status failed e t row)
            (env.xadd dlq_stream (dead_entry env n.id n.channel e) w.redis)
    unfolding give_up count_metric
    give_up-Leaves n e w row at =
        let (t, at1) = update-At env steady n.id failed e w row at in
        let w1 = (update_status env n.id failed e w).1 in
        let u = update_status-Same env n.id failed e w in
        let k = dead-kept n.id n.channel e w1 in
        let b = broadcast-SameButFrames env n.id _ _ in
        (
          t,
          record {
            at = ap (λ db. find (has_id n.id) db.notifications) (b.db ∙ k.0) ∙ at1;
            redis =
                b.redis
                ∙ dead-redis n.id n.channel e w1
                ∙ ap (env.xadd dlq_stream (dead_entry env n.id n.channel e)) u.redis;
            requests = b.requests ∙ k.1 ∙ u.requests;
          },
        )
