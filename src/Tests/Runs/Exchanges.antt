-- ===== src/Tests/Runs/Exchanges.antt =====
-- The theorems about HTTP requests, each at one concrete input.
use event_driven_notificatio.Prelude.{◌≡◌, refl, [], ◌∷◌, arith}
use event_driven_notificatio.Prelude.Text.{str}
use event_driven_notificatio.Domain.{Template, channel_email, queued}
use event_driven_notificatio.Services.{answered, response}
use event_driven_notificatio.Repository.Queries.{Later}
use event_driven_notificatio.Repository.Templates.{
  to_template_row, insert_template, create_template,
}
use event_driven_notificatio.Repository.TemplateLookup.{stored_template}
use event_driven_notificatio.Service.Templates
use event_driven_notificatio.Api.Responses.{template_body, write_json, handle_domain_error}
use event_driven_notificatio.Api.Handlers.{
  respond, answer_with, with_body, with_id, cancel_notification, list_notifications, list_filtered,
}
use event_driven_notificatio.Api.Handlers
use event_driven_notificatio.Api.Routes.{
  get_notifications, post_notifications_cancel, post_templates, get_templates_id, serve,
}
use event_driven_notificatio.Api.Reading.{serve-reads}
use event_driven_notificatio.Api.Refusing.{serve-refused}
use event_driven_notificatio.Api.Outcomes.{serve-cancel_once, get_templates_id-post_templates}
use event_driven_notificatio.Tests.Environment.{steady, failing, environment-UuidLaws}
use event_driven_notificatio.Tests.Runs.{runs, world}
use event_driven_notificatio.Tests.Runs.Requests.{service}

exchanges : Unit {0}
unfolding runs serve handle_domain_error respond answer_with with_body with_id
    Handlers.create_template cancel_notification list_notifications list_filtered Templates.create
    create_template insert_template to_template_row
exchanges = tt

serve-reads_example :
    Later failing
      (world queued 0)
      (serve failing service (get_notifications ((str "limit", str "10") ∷ [])) (world queued 0)).1
serve-reads_example =
    serve-reads failing service (get_notifications ((str "limit", str "10") ∷ [])) (world queued 0)
      tt

-- There is no notification 8.
serve-refused_example :
    (serve steady service (post_notifications_cancel (str "11111111")) (world queued 0)).1.db
    ≡ (world queued 0).db
unfolding exchanges
serve-refused_example =
    serve-refused steady (λ k. refl) service (post_notifications_cancel (str "11111111"))
      (world queued 0) (omega arith)

serve-cancel_once_example :
    let w = (serve steady service (post_notifications_cancel (str "1111111")) (world queued 0)).1 in
    let again = serve steady service (post_notifications_cancel (str "1111111")) w in
    (again.0.status ≡ 422) × (again.1.db ≡ w.db)
unfolding exchanges
serve-cancel_once_example =
    serve-cancel_once steady (λ k. refl) service (str "1111111") (world queued 0)
      (refl, refl, refl, refl, tt) refl

abbrev newsletter : Template
newsletter = record {
  id = 1001;
  name = str "newsletter";
  channel = channel_email;
  subject = [];
  body = str "Hello";
  created_at = 1700000000000000000;
  updated_at = 1700000000000000000;
}

get_templates_id-post_templates_example :
    let w = (serve steady service (post_templates (str "newsletter")) (world queued 0)).1 in
    (serve steady service (get_templates_id (steady.uuid_string newsletter.id)) w).0
    ≡ write_json 200 (template_body (stored_template newsletter))
unfolding exchanges
get_templates_id-post_templates_example =
    get_templates_id-post_templates steady (λ k. refl)
      (environment-UuidLaws (λ n. answered) (response 202 (str "ok"))) service (str "newsletter")
      (world queued 0) newsletter refl
