-- ===== src/Service/Notifications.antt =====
-- internal/service/notification.go: `NotificationService`. Of the template service it uses GetByID and
-- Render.
use event_driven_notificatio.Prelude.{
  ℕ, zero, Bool, ◌&&◌, not, if◌then◌else◌, Option, none, some, List, [], ◌∷◌, Result, ok, err,
}
use event_driven_notificatio.Prelude.Int.{ℤ, pos}
use event_driven_notificatio.Prelude.Text.{Str}
use event_driven_notificatio.Prelude.State.{pure, ◌>>=◌, ◌>>◌}
use event_driven_notificatio.Domain.{
  Error, validation, invalid_channel, invalid_priority, template_render, Notification, Template,
  CreateNotificationRequest, DeliveryAttempt, Vars, channel_valid, priority_valid, pending,
  scheduled, queued, is_status, Status,
}
use event_driven_notificatio.Services.{Services, Action}
use event_driven_notificatio.Repository.Notifications
use event_driven_notificatio.Repository.Templates.{get_template}
use event_driven_notificatio.Queue.Producer.{enqueue}
use event_driven_notificatio.Validator.{validate_notification_content}

pub record NotificationService : Type 0 where
  pub default_max_retries : ℤ
  -- `s.producer != nil`
  pub has_producer : Bool

-- `NewNotificationService`
unfoldable pub new_notification_service : ℤ → Bool → NotificationService
new_notification_service (pos zero) has_producer = record {
  default_max_retries = pos 5;
  has_producer = has_producer;
}
new_notification_service n has_producer = record {
  default_max_retries = n;
  has_producer = has_producer;
}

-- `if req.MaxRetries != nil`
abbrev pub or_default : Option ℤ → ℤ → ℤ
or_default none n = n
or_default (some m) n = m

-- `if req.ScheduledAt != nil`
abbrev pub first_status : Option ℕ → Status
first_status none = pending
first_status (some t) = scheduled

-- Lines 61 to 75 and 98 to 104; what the template changes comes in between and is neither status nor
-- schedule.
unfoldable pub to_notification : NotificationService → CreateNotificationRequest → Notification
to_notification s req = record {
  id = 0;
  idempotency_key = req.idempotency_key;
  batch_id = none;
  channel = req.channel;
  priority = req.priority;
  recipient = req.recipient;
  subject = req.subject;
  body = req.body;
  template_id = req.template_id;
  template_vars = req.template_vars;
  status = first_status req.scheduled_at;
  scheduled_at = req.scheduled_at;
  attempt_count = 0;
  max_retries = or_default req.max_retries s.default_max_retries;
  last_error = [];
  delivered_at = none;
  created_at = 0;
  updated_at = 0;
}

module _ (env : Services) where
  -- The subject is rendered only if the template has one.
  unfoldable pub render_subject : Str → Vars → Option Str
  render_subject [] vars = some []
  render_subject (c ∷ s) vars = env.render_text (c ∷ s) vars

  -- `n.Body = body; if subject != "" { n.Subject = subject }`
  unfoldable pub set_content : Notification → Str → Option Str → Result Error Notification
  set_content n body none = err template_render
  set_content n body (some []) = ok (record n { body = body })
  set_content n body (some (c ∷ s)) = ok (record n { body = body; subject = c ∷ s })

  unfoldable pub render_body : Template → Notification → Option Str → Result Error Notification
  render_body t n none = err template_render
  render_body t n (some body) = set_content n body (render_subject t.subject n.template_vars)

  -- `Render`, and what becomes of its results
  unfoldable pub render : Notification → Result Error Template → Result Error Notification
  unfolding render_body
  render n (err e) = err e
  render n (ok t) = render_body t n (env.render_text t.body n.template_vars)

  -- lines 77 to 91
  unfoldable pub apply_template : Option ℕ → Notification → Action env (Result Error Notification)
  apply_template none n = pure (ok n)
  apply_template (some id) n = do t ← get_template env id; pure (render n t)

  -- lines 114 to 122
  unfoldable pub mark_queued : Notification → Result Error (Unit {0}) → Action env Notification
  mark_queued n (err e) = pure n
  mark_queued n (ok u) = do
    Notifications.update_status env n.id queued []
    pure (record n { status = queued })

  -- lines 112 to 125
  unfoldable pub enqueue_created : NotificationService → Notification → Action env Notification
  enqueue_created s n =
      if is_status n.status pending && s.has_producer
      then (do r ← enqueue env n.id n.channel n.priority; mark_queued n r)
      else pure n

  -- lines 106 to 125: what follows the outcome of `repo.Create`
  unfoldable pub finish :
      NotificationService
      → Notification
      → Result Error (Unit {0})
      → Action env (Result Error Notification)
  finish s n (err e) = pure (err e)
  finish s n (ok u) = do n' ← enqueue_created s n; pure (ok n')

  -- lines 93 to 125
  unfoldable pub store :
      NotificationService → Notification → Option Error → Action env (Result Error Notification)
  store s n (some e) = pure (err e)
  store s n none = do (n', r) ← Notifications.create env n; finish s n' r

  -- lines 93 to 125, for the outcome of the template
  unfoldable pub check_and_store :
      NotificationService → Result Error Notification → Action env (Result Error Notification)
  unfolding store
  check_and_store s (err e) = pure (err e)
  check_and_store s (ok n) =
      store s n (validate_notification_content env n.channel n.recipient n.subject n.body)

  -- `Create`
  unfoldable pub create :
      NotificationService → CreateNotificationRequest → Action env (Result Error Notification)
  create s req =
      if not (env.valid_struct req)
      then pure (err validation)
      else if not (channel_valid req.channel)
      then pure (err invalid_channel)
      else if not (priority_valid req.priority)
      then pure (err invalid_priority)
      else (do n ← apply_template req.template_id (to_notification s req); check_and_store s n)

  -- `GetDeliveryAttempts`, after the notification was looked up
  unfoldable pub attempts_of :
      ℕ → Result Error Notification → Action env (Result Error (List DeliveryAttempt))
  attempts_of id (err e) = pure (err e)
  attempts_of id (ok n) = Notifications.get_delivery_attempts env id

  unfoldable pub get_delivery_attempts : ℕ → Action env (Result Error (List DeliveryAttempt))
  unfolding attempts_of
  get_delivery_attempts id = do r ← Notifications.get_by_id env id; attempts_of id r
