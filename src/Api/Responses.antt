-- ===== src/Api/Responses.antt =====
-- internal/api/handler/response.go: the responses, and the status of each error of the domain. A body
-- is what is encoded as JSON, not its text.
use event_driven_notificatio.Prelude.{ℕ, Bool, List}
use event_driven_notificatio.Prelude.Text.{Str, str}
use event_driven_notificatio.Domain.{
  Error, not_found, duplicate, idempotency_conflict, invalid_status, cannot_cancel, batch_too_large,
  invalid_channel, invalid_priority, template_render, rate_limited, provider_failure, validation,
  internal, Notification, NotificationList, DeliveryAttempt, Template,
}

pub data Body : Type 0 where
  no_body : Body
  -- plain text
  text_body : Str → Body
  -- `errorResponse`, with a fixed text or with `err.Error()`
  error_message : Str → Body
  error_details : Error → Body
  notification_body : Notification → Body
  batch_body : List Notification → ℕ → Body
  page_body : NotificationList → Body
  attempts_body : List DeliveryAttempt → Body
  template_body : Template → Body
  templates_body : List Template → Body
  status_body : Str → Body
  -- `statusText`, and whether PostgreSQL and Redis answered
  checks_body : Str → Bool → Bool → Body

pub record Response : Type 0 where
  pub status : ℕ
  pub body : Body

abbrev pub write_json : ℕ → Body → Response
write_json status body = record { status = status; body = body }

abbrev pub write_error : ℕ → Str → Response
write_error status message = write_json status (error_message message)

unfoldable pub handle_domain_error : Error → Response
handle_domain_error not_found = write_error 404 (str "resource not found")
handle_domain_error duplicate = write_error 409 (str "duplicate entry")
handle_domain_error idempotency_conflict = write_error 409 (str "idempotency key already exists")
handle_domain_error cannot_cancel =
    write_error 422 (str "notification cannot be cancelled in current status")
handle_domain_error batch_too_large = write_error 400 (str "batch size exceeds maximum of 1000")
handle_domain_error invalid_channel = write_error 400 (str "invalid channel")
handle_domain_error invalid_priority = write_error 400 (str "invalid priority")
handle_domain_error template_render = write_json 400 (error_details template_render)
handle_domain_error validation = write_json 400 (error_details validation)
handle_domain_error invalid_status = write_error 500 (str "internal server error")
handle_domain_error rate_limited = write_error 500 (str "internal server error")
handle_domain_error provider_failure = write_error 500 (str "internal server error")
handle_domain_error internal = write_error 500 (str "internal server error")
