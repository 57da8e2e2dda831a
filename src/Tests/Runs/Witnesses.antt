-- ===== src/Tests/Runs/Witnesses.antt =====
-- The theorems about the dispatcher and the repository, each at one concrete input.
use event_driven_notificatio.Prelude.{
  inl, inr, ℕ, ◌+◌, ◌≡◌, ◌⊎◌, refl, some, none, List, [], ◌∷◌, ok, err, arith,
}
use event_driven_notificatio.Prelude.Int.{pos}
use event_driven_notificatio.Prelude.Text.{str}
use event_driven_notificatio.Domain.{
  Notification, channel_email, priority_normal, queued, delivered, failed, cancelled, processing,
  cannot_cancel, not_found,
}
use event_driven_notificatio.Services.{response}
use event_driven_notificatio.Repository.Rows.{scan_notification}
use event_driven_notificatio.Repository.Notifications.{create, get_by_id, cancel}
use event_driven_notificatio.Repository.RoundTrip.{stored, get_by_id-create}
use event_driven_notificatio.Repository.Integrity.{IsSound}
use event_driven_notificatio.Repository.Cancelling.{
  Stops, cancel_accepts, cancel_refuses, cancel_unknown,
}
use event_driven_notificatio.Delivery.Retry.{backoff}
use event_driven_notificatio.Delivery.Providers.{Provider, Kind, SendError, error_text}
use event_driven_notificatio.Queue.Producer.{delayed_key, member}
use event_driven_notificatio.Queue.Dlq.{dlq_stream, dead_entry}
use event_driven_notificatio.Worker.Dispatcher.{handle, unix_milli}
use event_driven_notificatio.Worker.Settling.{acked}
use event_driven_notificatio.Worker.Frame.{Frame}
use event_driven_notificatio.Worker.Isolation.{handle-Frame}
use event_driven_notificatio.Worker.Requests.{Sent, handle_requests, handle_skips_final}
use event_driven_notificatio.Worker.Outcome.{
  Outcome, handle_delivers, handle_retries, handle_gives_up,
}
use event_driven_notificatio.System.Runs.{
  Operation, creates, marks, cancels, handles, polls, re_enqueues, run,
}
use event_driven_notificatio.System.Integrity.{run-IsSound}
use event_driven_notificatio.Tests.Environment.{empty_memory, steady, failing}
use event_driven_notificatio.Tests.Runs.{runs, row, world, dispatcher, message}

abbrev email : Provider
email = record { kind = Kind.email; base_url = str "https://webhook.site"; path = str "/email" }

abbrev unavailable : SendError
unavailable = SendError.provider_failure 503

handle_delivers_example :
    (t : ℕ) × Outcome steady 7
      (world queued 0)
      (handle steady dispatcher message 7 (world queued 0)).1
      email
      (scan_notification steady (row queued 0))
      (record (row queued 0) {
        status = delivered;
        attempt_count = 1;
        delivered_at = some t;
        updated_at = t;
      })
      (acked steady message empty_memory)
unfolding runs
handle_delivers_example =
    handle_delivers steady (λ n. refl) dispatcher message (world queued 0) (row queued 0) email
      (response 202 (str "ok")) refl (λ e. cc, λ e. cc, λ e. cc) refl refl refl 202 (str "ok") refl
      (omega arith)

handle_retries_example :
    (t : ℕ) × (k : ℕ) × Outcome failing 7
      (world queued 0)
      (handle failing dispatcher message 7 (world queued 0)).1
      email
      (scan_notification failing (row queued 0))
      (record (row queued 0) {
        status = queued;
        attempt_count = 1;
        last_error = some (error_text unavailable);
        updated_at = t;
      })
      (acked failing message (
        failing.zadd delayed_key
          (unix_milli (failing.clock k + backoff 1))
          (member failing 7 channel_email priority_normal)
          empty_memory))
unfolding runs
handle_retries_example =
    handle_retries failing (λ n. refl) dispatcher message (world queued 0) (row queued 0) email
      (response 503 (str "down")) refl (λ e. cc, λ e. cc, λ e. cc) refl refl refl unavailable refl
      (omega arith)

handle_gives_up_example :
    (t : ℕ) × Outcome failing 7
      (world queued 1)
      (handle failing dispatcher message 7 (world queued 1)).1
      email
      (scan_notification failing (row queued 1))
      (record (row queued 1) {
        status = failed;
        attempt_count = 2;
        last_error = some (error_text unavailable);
        updated_at = t;
      })
      (acked failing message (
        failing.xadd dlq_stream
          (dead_entry failing 7 channel_email (error_text unavailable))
          empty_memory))
unfolding runs
handle_gives_up_example =
    handle_gives_up failing (λ n. refl) dispatcher message (world queued 1) (row queued 1) email
      (response 503 (str "down")) refl (λ e. cc, λ e. cc, λ e. cc) refl refl refl unavailable refl
      (omega arith)

handle_requests_example :
    ((handle steady dispatcher message 7 (world queued 0)).1.requests ≡ [])
    ⊎ Sent steady dispatcher 7
        (world queued 0)
        (handle steady dispatcher message 7 (world queued 0)).1
handle_requests_example = handle_requests steady dispatcher message 7 (world queued 0)

handle_skips_final_example :
    let w = world cancelled 0 in
    let w' = (handle steady dispatcher message 7 w).1 in
    (w'.db ≡ w.db) × (w'.requests ≡ w.requests) × (w'.frames ≡ w.frames)
unfolding runs
handle_skips_final_example =
    handle_skips_final steady dispatcher message 7 (world cancelled 0) (row cancelled 0) refl
      (inr (inl refl))

handle-Frame_example :
    Frame steady 7 (world queued 0) (handle steady dispatcher message 7 (world queued 0)).1
handle-Frame_example = handle-Frame steady dispatcher message 7 (world queued 0)

cancel_accepts_example :
    let w = world queued 0 in
    ((cancel steady 7 w).0 ≡ ok tt)
    × Stops steady (λ n. refl) 7 w (row queued 0) (cancel steady 7 w).1.db.notifications
    × ((cancel steady 7 w).1.db.attempts ≡ w.db.attempts)
    × ((cancel steady 7 w).1.db.templates ≡ w.db.templates)
unfolding runs
cancel_accepts_example =
    cancel_accepts steady (λ n. refl) 7 (world queued 0) (row queued 0) refl refl

cancel_refuses_example :
    let w = world processing 0 in
    ((cancel steady 7 w).0 ≡ err cannot_cancel) × ((cancel steady 7 w).1.db ≡ w.db)
unfolding runs
cancel_refuses_example =
    cancel_refuses steady (λ n. refl) 7 (world processing 0) (row processing 0)
      (refl, refl, refl, refl, tt) refl refl

cancel_unknown_example :
    let w = world queued 0 in
    ((cancel steady 8 w).0 ≡ err not_found) × ((cancel steady 8 w).1.db ≡ w.db)
unfolding runs
cancel_unknown_example = cancel_unknown steady (λ n. refl) 8 (world queued 0) refl

abbrev fresh : Notification
fresh = record {
  id = 0;
  idempotency_key = str "order-42";
  batch_id = some 9;
  channel = channel_email;
  priority = priority_normal;
  recipient = str "user@example.com";
  subject = str "Welcome!";
  body = str "Hello";
  template_id = some 3;
  template_vars = (str "name", str "Ada") ∷ [];
  status = queued;
  scheduled_at = some 1234567;
  attempt_count = 0;
  max_retries = pos 3;
  last_error = [];
  delivered_at = none;
  created_at = 0;
  updated_at = 0;
}

get_by_id-create_example :
    let w = world queued 0 in
    (get_by_id steady (create steady fresh w).0.0.id (create steady fresh w).1).0
    ≡ ok (stored (create steady fresh w).0.0)
unfolding runs
get_by_id-create_example =
    get_by_id-create steady (λ n. refl) fresh (world queued 0)
      (record { unmarshal-marshal = refl; marshal_nonempty = omega arith }) refl

abbrev a_day : List Operation
a_day =
    creates fresh
    ∷ marks 7 queued []
    ∷ handles dispatcher message 7
    ∷ cancels 7
    ∷ polls 100
    ∷ re_enqueues
    ∷ []

run-IsSound_example : IsSound (run steady a_day (world queued 0)).db
unfolding runs
run-IsSound_example = run-IsSound steady a_day (world queued 0) (refl, refl, refl, refl, tt)
