-- ===== src/Api/Handlers.antt =====
-- internal/api/handler: the methods of `NotificationHandler`, `TemplateHandler` and `HealthHandler`.
-- What a handler reads of its request, the body, the path's ID and the query, are its arguments.
use event_driven_notificatio.Prelude.{
  ℕ, Bool, ◌&&◌, if◌then◌else◌, Option, none, some, length, Result, ok, err, is_ok,
}
use event_driven_notificatio.Prelude.Int.{pos}
use event_driven_notificatio.Prelude.Text.{Str, str}
use event_driven_notificatio.Prelude.State.{pure, ◌>>=◌}
use event_driven_notificatio.Domain.{Error, NotificationFilter}
use event_driven_notificatio.Services.{Services, Action, exec, redis_do}
use event_driven_notificatio.Repository.Sql.{failure}
use event_driven_notificatio.Repository.Notifications
use event_driven_notificatio.Repository.Templates.{get_template, list_templates, delete_template}
use event_driven_notificatio.Service.Notifications.{NotificationService}
use event_driven_notificatio.Service.Batches.{create_all}
use event_driven_notificatio.Service.Templates
use event_driven_notificatio.Service
use event_driven_notificatio.Api.Responses.{
  Body, no_body, notification_body, batch_body, page_body, attempts_body, template_body,
  templates_body, status_body, checks_body, Response, write_json, write_error, handle_domain_error,
}
use event_driven_notificatio.Api.Query.{Query, Filtered, parse_filter}

-- The response to the outcome of a call of a service.
unfoldable pub respond : {A : Type 0} → ℕ → (A → Body) → Result Error A → Response
respond status body (ok a) = write_json status (body a)
respond status body (err e) = handle_domain_error e

module _ (env : Services) where
  -- A call of a service, and the response to its outcome.
  unfoldable pub answer_with :
      {A : Type 0} → ℕ → (A → Body) → Action env (Result Error A) → Action env Response
  unfolding respond
  answer_with status body call = do r ← call; pure (respond status body r)

  -- The handlers that decode the body, `err != nil` first.
  unfoldable pub with_body :
      {A : Type 0} → Option A → (A → Action env Response) → Action env Response
  with_body none next = pure (write_error 400 (str "invalid request body"))
  with_body (some a) next = next a

  -- The handlers that parse the ID of the path.
  unfoldable pub with_id : Str → Option ℕ → (ℕ → Action env Response) → Action env Response
  with_id message none next = pure (write_error 400 message)
  with_id message (some id) next = next id

  unfoldable pub create_notification : NotificationService → Str → Action env Response
  unfolding with_body answer_with
  create_notification s body =
      with_body (env.decode_notification body)
        λ req. answer_with 201 notification_body (Service.Notifications.create env s req)

  unfoldable pub create_notifications : NotificationService → Str → Action env Response
  unfolding with_body answer_with
  create_notifications s body =
      with_body (env.decode_batch body)
        λ req. answer_with 201 (λ ns. batch_body ns (length ns)) (create_all env s req)

  unfoldable pub get_notification : Str → Action env Response
  unfolding with_id answer_with
  get_notification path =
      with_id (str "invalid notification ID") (env.uuid_parse path)
        λ id. answer_with 200 notification_body (Notifications.get_by_id env id)

  unfoldable pub list_filtered : Filtered → Action env Response
  unfolding answer_with
  list_filtered (err message) = pure (write_error 400 message)
  list_filtered (ok filter) = answer_with 200 page_body (Notifications.list env filter)

  unfoldable pub list_notifications : Query → Action env Response
  unfolding list_filtered
  list_notifications query = list_filtered (parse_filter env query)

  abbrev pub batch_filter : ℕ → NotificationFilter
  batch_filter id = record {
    status = none;
    channel = none;
    batch_id = some id;
    cursor = none;
    limit = pos 100;
  }

  unfoldable pub list_by_batch : Str → Action env Response
  unfolding with_id answer_with
  list_by_batch path =
      with_id (str "invalid batch ID") (env.uuid_parse path)
        λ id. answer_with 200 page_body (Notifications.list env (batch_filter id))

  unfoldable pub cancel_notification : Str → Action env Response
  unfolding with_id answer_with
  cancel_notification path =
      with_id (str "invalid notification ID") (env.uuid_parse path)
        λ id. answer_with 200 (λ u. status_body (str "cancelled")) (Notifications.cancel env id)

  unfoldable pub get_attempts : Str → Action env Response
  unfolding with_id answer_with
  get_attempts path =
      with_id (str "invalid notification ID") (env.uuid_parse path)
        λ id. answer_with 200 attempts_body (Service.Notifications.get_delivery_attempts env id)

  unfoldable pub create_template : Str → Action env Response
  unfolding with_body answer_with
  create_template body =
      with_body (env.decode_template body)
        λ req. answer_with 201 template_body (Service.Templates.create env req)

  unfoldable pub get_one_template : Str → Action env Response
  unfolding with_id answer_with
  get_one_template path =
      with_id (str "invalid template ID") (env.uuid_parse path)
        λ id. answer_with 200 template_body (get_template env id)

  unfoldable pub list_all_templates : Action env Response
  unfolding answer_with
  list_all_templates = answer_with 200 templates_body (list_templates env)

  unfoldable pub update_one_template : Str → Str → Action env Response
  unfolding with_id with_body answer_with
  update_one_template path body = with_id (str "invalid template ID") (env.uuid_parse path) λ id.
      with_body (env.decode_template_update body)
        λ req. answer_with 200 template_body (Service.Templates.update env id req)

  unfoldable pub delete_one_template : Str → Action env Response
  unfolding with_id answer_with
  delete_one_template path =
      with_id (str "invalid template ID") (env.uuid_parse path)
        λ id. answer_with 204 (λ u. no_body) (delete_template env id)

  unfoldable pub health : Action env Response
  health = pure (write_json 200 (status_body (str "ok")))

  abbrev pub status_text : Bool → Str
  status_text ready = if ready then str "ok" else str "unhealthy"

  abbrev pub readiness : Bool → Bool → Response
  readiness postgres redis =
      let ready = postgres && redis in
      write_json (if ready then 200 else 503) (checks_body (status_text ready) postgres redis)

  -- `Ready`: a ping to each of the two, which changes nothing.
  unfoldable pub ready : Action env Response
  ready = do
    postgres ← exec env failure (λ _ db. (ok tt, db))
    redis ← redis_do env (λ r. (tt, r))
    pure (readiness (is_ok postgres) (is_ok redis))
