-- ===== src/Tests/Runs/Requests.antt =====
-- The theorems about requests to create a notification, each at one concrete input.
use event_driven_notificatio.Prelude.{◌≡◌, ◌↔◌, refl, true, none, []}
use event_driven_notificatio.Prelude.Int.{pos}
use event_driven_notificatio.Prelude.Text.{str}
use event_driven_notificatio.Domain.{
  Notification, CreateNotificationRequest, channel_sms, priority_high, queued,
}
use event_driven_notificatio.Validator.{
  all_digits, is_phone, check_body, validate_notification_content,
}
use event_driven_notificatio.Validator.Rules.{IsAcceptable, validate_notification_content_iff}
use event_driven_notificatio.Repository.Templates.{scan_template, select_template, get_template}
use event_driven_notificatio.Service.Notifications.{
  NotificationService, to_notification, set_content, render_subject, render_body, render,
  apply_template, mark_queued, enqueue_created, finish, store, check_and_store, create,
}
use event_driven_notificatio.Service.Outcomes.{Checked, create_checks, Queued, create_queues}
use event_driven_notificatio.Queue.Producer.{enqueue, entry}
use event_driven_notificatio.Tests.Environment.{steady}
use event_driven_notificatio.Tests.Runs.{runs, world}

abbrev pub service : NotificationService
service = record { default_max_retries = pos 5; has_producer = true }

abbrev pub request : CreateNotificationRequest
request = record {
  idempotency_key = str "order-43";
  channel = channel_sms;
  priority = priority_high;
  recipient = str "+905551234567";
  subject = [];
  body = str "Your code is 1234";
  template_id = none;
  template_vars = [];
  scheduled_at = none;
  max_retries = none;
}

abbrev created : Notification
created = record {
  id = 1001;
  idempotency_key = str "order-43";
  batch_id = none;
  channel = channel_sms;
  priority = priority_high;
  recipient = str "+905551234567";
  subject = [];
  body = str "Your code is 1234";
  template_id = none;
  template_vars = [];
  status = queued;
  scheduled_at = none;
  attempt_count = 0;
  max_retries = pos 5;
  last_error = [];
  delivered_at = none;
  created_at = 1700000000000000000;
  updated_at = 1700000000000000000;
}

create_runs : Unit {0}
unfolding runs all_digits is_phone check_body validate_notification_content to_notification
    set_content render_subject render_body render scan_template select_template get_template
    apply_template mark_queued enqueue_created finish store check_and_store create enqueue entry
create_runs = tt

create_checks_example : Checked steady service created
unfolding create_runs
create_checks_example = create_checks steady service request (world queued 0) created refl

create_queues_example :
    Queued steady
      (λ k. refl)
      service
      (world queued 0)
      (create steady service request (world queued 0)).1
      created
unfolding create_runs
create_queues_example =
    create_queues steady (λ k. refl) service request (world queued 0) created refl refl refl

validate_notification_content_iff_example :
    (validate_notification_content steady channel_sms (str "+905551234567") [] (str "Hi") ≡ none)
    ↔ IsAcceptable steady channel_sms (str "+905551234567") [] (str "Hi")
validate_notification_content_iff_example =
    validate_notification_content_iff steady channel_sms (str "+905551234567") [] (str "Hi")
