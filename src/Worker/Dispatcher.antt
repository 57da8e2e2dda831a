-- ===== src/Worker/Dispatcher.antt =====
-- internal/worker/dispatcher.go. Errors that the source only logs are dropped here; what a call did to
-- the tables, to Redis, the hub, the metrics and the transport is in the world.
use event_driven_notificatio.Prelude.{
  Result, ℕ, zero, suc, ◌+◌, ◌-◌, ◌/◌, Bool, true, false, ◌||◌, if◌then◌else◌, Option, none, some,
  List, [], ◌∷◌, ◌++◌, ok, err,
}
use event_driven_notificatio.Prelude.Text.{Str, str}
use event_driven_notificatio.Prelude.State.{pure, ◌>>=◌, ◌>>◌, each}
use event_driven_notificatio.Domain.{
  Error, Notification, Status, processing, delivered, failed, queued, cancelled, is_status,
  DeliveryAttempt,
}
use event_driven_notificatio.Services.{
  Services, Action, now, is_done, count_metric, processed, observed, retried, dead_lettered,
}
use event_driven_notificatio.Repository.Notifications.{
  get_by_id, update_status, increment_attempt, create_delivery_attempt,
}
use event_driven_notificatio.Delivery.Retry.{should_retry, retry_at}
use event_driven_notificatio.Delivery.Providers.{
  Provider, Providers, SendError, SendResult, error_text, lookup, send,
}
use event_driven_notificatio.Queue.Producer.{enqueue, enqueue_delayed, pop_delayed_due}
use event_driven_notificatio.Queue.Consumer.{Message, read_messages, ack}
use event_driven_notificatio.Queue.Dlq
use event_driven_notificatio.Ratelimit.{Limiter, allow}
use event_driven_notificatio.Websocket.Hub.{broadcast}
use event_driven_notificatio.Worker.Member.{parse_member}

pub record Dispatcher : Type 0 where
  pub consumer_name : Str
  pub providers : Providers
  pub limiter : Limiter

-- How `processMessage` ends: it has returned, it has returned because the context is done, or it is
-- still waiting for the rate limiter when the fuel is used up.
pub data Progress : Type 0 where
  finished stopped waiting : Progress

-- Skip if already delivered, cancelled, or failed.
abbrev pub is_final : Status → Bool
is_final s = is_status s delivered || (is_status s cancelled || is_status s failed)

-- The text of the error where there is no provider.
abbrev pub no_provider : Str → Str
no_provider channel = str "no provider for channel: " ++ channel

-- The error text of an attempt, empty where there was none.
abbrev pub attempt_error : Option SendError → Str
attempt_error none = []
attempt_error (some e) = error_text e

abbrev pub attempt_of : Notification → SendResult → DeliveryAttempt
attempt_of n result = record {
  id = 0;
  notification_id = n.id;
  attempt_number = n.attempt_count + 1;
  status_code = result.status_code;
  response_body = result.response_body;
  error = attempt_error result.error;
  duration_ms = result.duration_ms;
  created_at = 0;
}

-- `retryAt.UnixMilli()`
abbrev pub unix_milli : ℕ → ℕ
unix_milli t = t / 1000000

module _ (env : Services) where
  unfoldable pub ack_message : Message → Action env (Unit {0})
  ack_message msg = do ack env msg.stream_id msg.message_id; pure tt

  -- lines 196 to 209
  unfoldable pub succeed : Message → Notification → Action env (Unit {0})
  succeed msg n = do
    update_status env n.id delivered []
    ack_message msg
    count_metric env (processed n.channel (str "delivered"))
    broadcast env n.id (str "delivered")

  -- lines 215 to 226
  unfoldable pub schedule_retry : Notification → Str → Action env (Unit {0})
  schedule_retry n message = do
    t ← retry_at env (n.attempt_count + 1)
    update_status env n.id queued message
    enqueue_delayed env n.id n.channel n.priority (unix_milli t)
    count_metric env retried
    broadcast env n.id (str "retry_scheduled:" ++ env.format_time t)

  -- lines 227 to 239
  unfoldable pub give_up : Notification → Str → Action env (Unit {0})
  give_up n message = do
    update_status env n.id failed message
    Dlq.push env n.id n.channel message
    count_metric env dead_lettered
    count_metric env (processed n.channel (str "failed"))
    broadcast env n.id (str "failed")

  unfoldable pub settle : Message → Notification → Option SendError → Action env (Unit {0})
  settle msg n none = succeed msg n
  settle msg n (some e) =
      (if should_retry (n.attempt_count + 1) n.max_retries
        then schedule_retry n (error_text e)
        else give_up n (error_text e))
      >> ack_message msg

  -- lines 171 to 194; the result is `result.Error`
  unfoldable pub record_attempt : Provider → Notification → Action env (Option SendError)
  record_attempt provider n = do
    start ← now env
    result ← send env provider n
    end ← now env
    count_metric env (observed n.channel (end - start))
    increment_attempt env n.id
    create_delivery_attempt env (attempt_of n result)
    pure result.error

  -- lines 171 to 244
  unfoldable pub attempt_delivery : Provider → Message → Notification → Action env (Unit {0})
  unfolding record_attempt
  attempt_delivery provider msg n = do e ← record_attempt provider n; settle msg n e

  unfoldable pub refuse_channel : Message → Notification → Action env (Unit {0})
  refuse_channel msg n = do update_status env n.id failed (no_provider n.channel); ack_message msg

  module _ (d : Dispatcher) where
    -- lines 153 to 244, for a notification that was read and is not final
    unfoldable pub deliver : Message → Notification → Action env (Unit {0})
    deliver msg n = do
      update_status env n.id processing []
      elim (lookup n.channel d.providers) [
        | none ↦ refuse_channel msg n
        | some provider ↦ attempt_delivery provider msg n
      ]

    -- lines 137 to 244: what is done with the outcome of the read
    unfoldable pub handle_read : Message → Result Error Notification → Action env (Unit {0})
    handle_read msg (err e) = ack_message msg
    handle_read msg (ok n) = if is_final n.status then ack_message msg else deliver msg n

    -- lines 135 to 244, once the rate limiter has let the message pass
    unfoldable pub handle : Message → ℕ → Action env (Unit {0})
    unfolding handle_read
    handle msg id = do r ← get_by_id env id; handle_read msg r

    -- `<-ctx.Done()` against the 50 milliseconds
    unfoldable pub or_stop : Action env Progress → Bool → Action env Progress
    or_stop next true = pure stopped
    or_stop next false = next

    -- An error of the limiter lets the message pass.
    unfoldable pub on_allowed : Action env Progress → Result Error Bool → Action env Progress
    unfolding or_stop
    on_allowed next (err e) = pure finished
    on_allowed next (ok true) = pure finished
    on_allowed next (ok false) = do done ← is_done env; or_stop next done

    -- The loop of the rate limit check.
    unfoldable pub wait_for_slot : ℕ → Str → Action env Progress
    unfolding on_allowed
    wait_for_slot zero channel = pure waiting
    wait_for_slot (suc fuel) channel = do
      r ← allow env d.limiter channel
      on_allowed (wait_for_slot fuel channel) r

    -- lines 135 to 244, if the loop has not returned
    unfoldable pub on_slot : Message → ℕ → Progress → Action env Progress
    on_slot msg id finished = do handle msg id; pure finished
    on_slot msg id stopped = pure stopped
    on_slot msg id waiting = pure waiting

    unfoldable pub on_parsed : ℕ → Message → Option ℕ → Action env Progress
    unfolding wait_for_slot on_slot
    on_parsed fuel msg none = do ack_message msg; pure finished
    on_parsed fuel msg (some id) = do slot ← wait_for_slot fuel msg.channel; on_slot msg id slot

    unfoldable pub process_message : ℕ → Message → Action env Progress
    unfolding on_parsed
    process_message fuel msg = on_parsed fuel msg (env.uuid_parse msg.notification_id)

    unfoldable pub go_on : Action env Progress → Progress → Action env Progress
    go_on next finished = next
    go_on next stopped = next
    go_on next waiting = pure waiting

    -- `for _, msg := range messages`, which stops in the model where a message is still waiting.
    unfoldable pub process_all : ℕ → List Message → Action env Progress
    unfolding go_on
    process_all fuel [] = pure finished
    process_all fuel (msg ∷ msgs) = do
      progress ← process_message fuel msg
      go_on (process_all fuel msgs) progress

    -- One round of `Work`: whether the loop goes on. A panic ends it too.
    unfoldable pub work_round : ℕ → Action env Bool
    work_round fuel = do
      done ← is_done env
      elim done [
        | true ↦ pure false
        | false ↦ do
          r ← read_messages env d.consumer_name 1
          elim r [
            | err _ ↦ do gone ← is_done env; pure (if gone then false else true)
            | ok none ↦ pure false
            | ok (some msgs) ↦ do process_all fuel msgs; pure true
          ]
      ]

    -- `Work`, for at most so many rounds.
    unfoldable pub work : ℕ → ℕ → Action env (Unit {0})
    work zero fuel = pure tt
    work (suc rounds) fuel = do
      on ← work_round fuel
      elim on [ true ↦ work rounds fuel | false ↦ pure tt ]

  -- `parts[0]`, `parts[1]`, `parts[2]` of a parsed member
  unfoldable pub enqueue_parts : Option (List Str) → Action env (Unit {0})
  enqueue_parts (some (id ∷ channel ∷ priority ∷ [])) = do
    enqueue env (env.uuid_value id) channel priority
    pure tt
  enqueue_parts (some (id ∷ channel ∷ priority ∷ more ∷ rest)) = pure tt
  enqueue_parts (some (id ∷ channel ∷ [])) = pure tt
  enqueue_parts (some (id ∷ [])) = pure tt
  enqueue_parts (some []) = pure tt
  enqueue_parts none = pure tt

  unfoldable pub re_enqueue : Str → Action env (Unit {0})
  unfolding enqueue_parts
  re_enqueue member = enqueue_parts (parse_member member)

  unfoldable pub re_enqueue_all : Result Error (List Str) → Action env (Unit {0})
  re_enqueue_all (err e) = pure tt
  re_enqueue_all (ok members) = each re_enqueue members

  unfoldable pub process_delayed_batch : Action env (Unit {0})
  unfolding re_enqueue_all
  process_delayed_batch = do
    t ← now env
    r ← pop_delayed_due env (unix_milli t) 50
    re_enqueue_all r
