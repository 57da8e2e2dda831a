-- ===== src/Tests/Runs.antt =====
-- Runs of the dispatcher on one notification, branch by branch.
use event_driven_notificatio.Repository.Notifications.{fetch_scheduled_due, scan_all}
use event_driven_notificatio.Repository.Sql.{fetch_due, due_ids, order_by, insert_by}
use event_driven_notificatio.Services.{read_rows}
use event_driven_notificatio.Repository.Notifications.{create, create_error, cancel, cancel_outcome}
use event_driven_notificatio.Repository.Sql.{
  cancel_by_id, insert_notification, has_template, same_key,
}
use event_driven_notificatio.Repository.Rows.{
  nil_if_empty, or_empty, scan_vars, to_micros, opt_micros,
}
use event_driven_notificatio.Domain.{stream_key, channel_valid, priority_valid}
use event_driven_notificatio.System.Runs.{run, operate}
use event_driven_notificatio.Prelude.{
  ◌≡◌, refl, some, none, List, [], ◌∷◌, any, find, select, map, length, ℕ,
}
use event_driven_notificatio.Prelude.Int.{pos}
use event_driven_notificatio.Prelude.Text.{str, same, decimal}
use event_driven_notificatio.Prelude.State.{each}
use event_driven_notificatio.Domain.{
  channel_email, priority_normal, queued, processing, delivered, failed, cancelled, Status,
}
use event_driven_notificatio.Services.{
  Row, TemplateRow, World, exec, redis_do, now, next_uuid, is_done, draw, count_metric,
}
use event_driven_notificatio.Services.Laws.{set_score}
use event_driven_notificatio.Repository.Rows.{
  to_row, scan_notification, to_attempt_row, scan_attempt,
}
use event_driven_notificatio.Repository.Sql.{
  select_by_id, update_status_by_id, update_where, set_status, increment_by_id, insert_attempt,
}
use event_driven_notificatio.Repository.Notifications.{
  get_by_id, update_status, increment_attempt, create_delivery_attempt,
}
use event_driven_notificatio.Delivery.Retry.{backoff, should_retry, retry_at}
use event_driven_notificatio.Delivery.Providers.{Kind, lookup, send, answer, payload, error_text}
use event_driven_notificatio.Queue.Producer.{enqueue_delayed, member}
use event_driven_notificatio.Queue.Consumer.{Message, ack}
use event_driven_notificatio.Queue.Dlq
use event_driven_notificatio.Ratelimit.{new_limiter}
use event_driven_notificatio.Websocket.Hub.{broadcast, frame, watchers}
use event_driven_notificatio.Worker.Dispatcher.{
  Dispatcher, ack_message, succeed, schedule_retry, give_up, settle, attempt_delivery,
  refuse_channel, deliver, handle, handle_read, record_attempt,
}
use event_driven_notificatio.Tests.Environment.{Memory, empty_memory, steady, failing}
mod Witnesses
mod Ticks
mod Requests
mod Histories
mod Catalogs
mod Exchanges

runs : Unit {0}
unfolding exec redis_do now next_uuid is_done draw count_metric set_score to_row scan_notification
    to_attempt_row scan_attempt select_by_id update_status_by_id update_where set_status
    increment_by_id insert_attempt get_by_id update_status increment_attempt create_delivery_attempt
    backoff should_retry retry_at lookup send answer payload error_text enqueue_delayed member ack
    Dlq.push new_limiter broadcast frame watchers ack_message succeed schedule_retry give_up settle
    attempt_delivery refuse_channel deliver handle_read handle record_attempt any find select same
    decimal each create create_error cancel cancel_by_id cancel_outcome nil_if_empty or_empty
    scan_vars to_micros opt_micros insert_notification has_template same_key stream_key run operate
    channel_valid priority_valid fetch_scheduled_due scan_all read_rows fetch_due due_ids order_by
    insert_by
runs = tt

abbrev pub row : Status → ℕ → Row
row status attempts = record {
  id = 7;
  idempotency_key = none;
  batch_id = none;
  channel = channel_email;
  priority = priority_normal;
  recipient = str "user@example.com";
  subject = some (str "Welcome!");
  body = str "Hello";
  template_id = none;
  template_vars = str "null";
  status = status;
  scheduled_at = none;
  attempt_count = attempts;
  max_retries = pos 2;
  last_error = none;
  delivered_at = none;
  created_at = 1600000000000000000;
  updated_at = 1600000000000000000;
}

abbrev pub welcome : TemplateRow
welcome = record {
  id = 3;
  name = str "welcome";
  channel = channel_email;
  subject = none;
  body = str "Hello";
  created_at = 1600000000000000000;
  updated_at = 1600000000000000000;
}

abbrev pub world : Status → ℕ → World Memory
world status attempts = record {
  db = record { notifications = row status attempts ∷ []; attempts = []; templates = welcome ∷ [] };
  redis = empty_memory;
  subscribers = (7, 70 ∷ 71 ∷ []) ∷ [];
  frames = [];
  metrics = [];
  requests = [];
  step = 0;
}

abbrev pub dispatcher : Dispatcher
dispatcher = record {
  consumer_name = str "worker-0";
  providers =
      (
        channel_email,
        record { kind = Kind.email; base_url = str "https://webhook.site"; path = str "/email" },
      )
      ∷ [];
  limiter = record { max_per_sec = 100; window_ms = 1000 };
}

abbrev pub message : Message
message = record {
  stream_id = str "notifications:normal";
  message_id = str "1-1";
  notification_id = str "1111111";
  channel = channel_email;
}

abbrev statuses : World Memory → List Status
statuses w = map (λ r. r.status) w.db.notifications

-- The first attempt succeeds: the row is delivered, both watchers are told, the message is
-- acknowledged.
run_delivered :
    let w = (handle steady dispatcher message 7 (world queued 0)).1 in
    (statuses w ≡ delivered ∷ [])
    × (length w.requests ≡ 1)
    × (length w.frames ≡ 2)
    × (map (λ r. r.attempt_count) w.db.notifications ≡ 1 ∷ [])
    × (w.redis.acks ≡ (str "notifications:normal", str "1-1") ∷ [])
unfolding runs
run_delivered = (refl, refl, refl, refl, refl)

-- The first failure is retried two seconds later, the second is final.
run_retried :
    let w = (handle failing dispatcher message 7 (world queued 0)).1 in
    (statuses w ≡ queued ∷ []) × (length w.redis.zsets ≡ 1)
unfolding runs
run_retried = (refl, refl)

run_exhausted :
    let w = (handle failing dispatcher message 7 (world processing 1)).1 in
    (statuses w ≡ failed ∷ []) × (length w.redis.streams ≡ 1) × (length w.redis.zsets ≡ 0)
unfolding runs
run_exhausted = (refl, refl, refl)

run_cancelled : (handle failing dispatcher message 7 (world cancelled 0)).1.requests ≡ []
unfolding runs
run_cancelled = refl
