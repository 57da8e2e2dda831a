-- ===== src/Repository/Rows.antt =====
-- How a notification becomes a row and a row a notification: the parameters of the INSERT,
-- `nilIfEmpty`, `scanNotification`.
use event_driven_notificatio.Prelude.{
  ℕ, ◌*◌, ◌/◌, Option, none, some, [], ◌∷◌, length, if◌then◌else◌, ltb,
}
use event_driven_notificatio.Prelude.Text.{Str}
use event_driven_notificatio.Domain.{Notification, DeliveryAttempt, Vars}
use event_driven_notificatio.Services.{Services, Row, AttemptRow}

unfoldable pub nil_if_empty : Str → Option Str
nil_if_empty [] = none
nil_if_empty (c ∷ s) = some (c ∷ s)

-- `if p != nil { s = *p }` on an empty string `s`
unfoldable pub or_empty : Option Str → Str
or_empty none = []
or_empty (some s) = s

-- A `timestamptz` holds microseconds.
unfoldable pub to_micros : ℕ → ℕ
to_micros t = t / 1000 * 1000

unfoldable pub opt_micros : Option ℕ → Option ℕ
unfolding to_micros
opt_micros none = none
opt_micros (some t) = some (to_micros t)

module _ (env : Services) where
  unfoldable pub to_row : Notification → Row
  unfolding nil_if_empty to_micros opt_micros
  to_row n = record {
    id = n.id;
    idempotency_key = nil_if_empty n.idempotency_key;
    batch_id = n.batch_id;
    channel = n.channel;
    priority = n.priority;
    recipient = n.recipient;
    subject = nil_if_empty n.subject;
    body = n.body;
    template_id = n.template_id;
    template_vars = env.marshal n.template_vars;
    status = n.status;
    scheduled_at = opt_micros n.scheduled_at;
    attempt_count = n.attempt_count;
    max_retries = n.max_retries;
    last_error = none;
    delivered_at = none;
    created_at = to_micros n.created_at;
    updated_at = to_micros n.updated_at;
  }

  unfoldable pub scan_vars : Str → Vars
  scan_vars json = if ltb 0 (length json) then env.unmarshal json else []

  unfoldable pub scan_notification : Row → Notification
  unfolding or_empty scan_vars
  scan_notification row = record {
    id = row.id;
    idempotency_key = or_empty row.idempotency_key;
    batch_id = row.batch_id;
    channel = row.channel;
    priority = row.priority;
    recipient = row.recipient;
    subject = or_empty row.subject;
    body = row.body;
    template_id = row.template_id;
    template_vars = scan_vars row.template_vars;
    status = row.status;
    scheduled_at = row.scheduled_at;
    attempt_count = row.attempt_count;
    max_retries = row.max_retries;
    last_error = or_empty row.last_error;
    delivered_at = row.delivered_at;
    created_at = row.created_at;
    updated_at = row.updated_at;
  }

unfoldable pub to_attempt_row : DeliveryAttempt → AttemptRow
unfolding nil_if_empty to_micros
to_attempt_row a = record {
  id = a.id;
  notification_id = a.notification_id;
  attempt_number = a.attempt_number;
  status_code = a.status_code;
  response_body = nil_if_empty a.response_body;
  error = nil_if_empty a.error;
  duration_ms = a.duration_ms;
  created_at = to_micros a.created_at;
}

unfoldable pub scan_attempt : AttemptRow → DeliveryAttempt
unfolding or_empty
scan_attempt row = record {
  id = row.id;
  notification_id = row.notification_id;
  attempt_number = row.attempt_number;
  status_code = row.status_code;
  response_body = or_empty row.response_body;
  error = or_empty row.error;
  duration_ms = row.duration_ms;
  created_at = row.created_at;
}
