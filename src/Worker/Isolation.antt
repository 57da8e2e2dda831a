-- ===== src/Worker/Isolation.antt =====
-- The calls of internal/worker/dispatcher.go and what does not belong to their notification.
use event_driven_notificatio.Prelude.{ℕ, ◌≡◌, refl, ap, ◌∙◌, arith}
use event_driven_notificatio.Prelude.Text.{Str}
use event_driven_notificatio.Domain.{Notification}
use event_driven_notificatio.Services.{Services, Metric, W, now, count_metric}
use event_driven_notificatio.Services.Effects.{SameButRedis, redis_do-SameButRedis}
use event_driven_notificatio.Repository.Reading.{get_by_id-world}
use event_driven_notificatio.Repository.Notifications.{get_by_id}
use event_driven_notificatio.Delivery.Retry.{retry_at}
use event_driven_notificatio.Delivery.Providers.{Provider, send}
use event_driven_notificatio.Queue.Producer.{enqueue_delayed}
use event_driven_notificatio.Queue.Consumer.{Message, ack}
use event_driven_notificatio.Queue.Dlq
use event_driven_notificatio.Websocket.Hub.{broadcast}
use event_driven_notificatio.Websocket.Broadcast.{broadcast-SameButFrames}
use event_driven_notificatio.Worker.Dispatcher.{Dispatcher, ack_message, handle}
use event_driven_notificatio.Worker.Footprint.{Allows, Quiet, handle-moves}
use event_driven_notificatio.Worker.Frame.{
  Frame, FrameDb-trans, Frame-of_same, update_status-Frame, increment-Frame, attempt-Frame,
}

module _ (env : Services) where
  -- What `Send` keeps: it makes at most one request, and touches nothing else.
  pub send-db :
      (p : Provider) (n : Notification) (w : W env)
      → ((send env p n w).1.db ≡ w.db)
        × ((send env p n w).1.subscribers ≡ w.subscribers)
        × ((send env p n w).1.redis ≡ w.redis)
  unfolding send now
  send-db p n w = ground arith

  module _ (id : ℕ) where
    Frame-chain : (a b c : W env) → Frame env id a b → Frame env id b c → Frame env id a c
    Frame-chain a b c p q = record {
      db = FrameDb-trans id a.db b.db c.db p.db q.db;
      subscribers = q.subscribers ∙ p.subscribers;
    }

    redis-Frame : (w w' : W env) → SameButRedis env w w' → Frame env id w w'
    redis-Frame w w' s = Frame-of_same env id w w' s.db s.subscribers

    tell-Frame : (s : Str) (w : W env) → Frame env id w (broadcast env id s w).1
    tell-Frame s w =
        let b = broadcast-SameButFrames env id s w in Frame-of_same env id w _ b.db b.subscribers

    ack-Frame : (msg : Message) (w : W env) → Frame env id w (ack_message env msg w).1
    unfolding ack_message ack
    ack-Frame msg w = redis-Frame w _ (redis_do-SameButRedis env _ w)

    delay-Frame :
        (c p : Str) (t : ℕ) (w : W env) → Frame env id w (enqueue_delayed env id c p t w).1
    unfolding enqueue_delayed
    delay-Frame c p t w = redis-Frame w _ (redis_do-SameButRedis env _ w)

    dead-Frame : (c e : Str) (w : W env) → Frame env id w (Dlq.push env id c e w).1
    unfolding Dlq.push
    dead-Frame c e w = redis-Frame w _ (redis_do-SameButRedis env _ w)

    read-Frame : (w : W env) → Frame env id w (get_by_id env id w).1
    read-Frame w =
        Frame-of_same env id w _ (ap (λ v. v.db) (get_by_id-world env id w))
          (ap (λ v. v.subscribers) (get_by_id-world env id w))

    now-Frame : (w : W env) → Frame env id w (now env w).1
    unfolding now
    now-Frame w = Frame-of_same env id w _ refl refl

    retry-Frame : (n : ℕ) (w : W env) → Frame env id w (retry_at env n w).1
    unfolding retry_at now
    retry-Frame n w = Frame-of_same env id w _ refl refl

    metric-Frame : (m : Metric) (w : W env) → Frame env id w (count_metric env m w).1
    unfolding count_metric
    metric-Frame m w = Frame-of_same env id w _ refl refl

    send-Frame : (p : Provider) (n : Notification) (w : W env) → Frame env id w (send env p n w).1
    send-Frame p n w = let k = send-db p n w in Frame-of_same env id w _ k.0 k.1

    Frame-Quiet : (msg : Message) → Quiet env (Frame env id) msg id
    Frame-Quiet msg = record {
      same = λ w. Frame-of_same env id w w refl refl;
      chain = Frame-chain;
      read = read-Frame;
      update = update_status-Frame env id;
      increment = increment-Frame env id;
      attempt = attempt-Frame env id;
      clock = now-Frame;
      retry = retry-Frame;
      metric = metric-Frame;
      acked = ack-Frame msg;
      delay = delay-Frame;
      dead = dead-Frame;
      tell = tell-Frame;
    }

    Frame-Allows : (msg : Message) → Allows env (Frame env id) msg id
    Frame-Allows msg = record { quiet = Frame-Quiet msg; post = send-Frame }

-- Handling a message for one notification finds every other notification's row as it was, adds
-- delivery attempts of that notification only, at the end of their table, and leaves the templates
-- and the subscribers alone: on every branch, whichever calls fail.
pub handle-Frame :
    (env : Services) (d : Dispatcher) (msg : Message) (id : ℕ) (w : W env)
    → Frame env id w (handle env d msg id w).1
handle-Frame env d msg id w = handle-moves env (Frame env id) msg id (Frame-Allows env id msg) d w
