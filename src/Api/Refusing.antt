-- ===== src/Api/Refusing.antt =====
-- The responses with a status of 400 or above.
use event_driven_notificatio.Prelude.{
  ℕ, ◌≤◌, ◌<◌, ◌≡◌, refl, ap, Option, none, some, Result, ok, err, arith,
}
use event_driven_notificatio.Prelude.Text.{Str}
use event_driven_notificatio.Domain.{Error}
use event_driven_notificatio.Services.{Services, Database, W, Action, answered}
use event_driven_notificatio.Repository.Notifications.{cancel}
use event_driven_notificatio.Repository.Templates.{delete_template}
use event_driven_notificatio.Repository.Queries.{Later}
use event_driven_notificatio.Repository.Refusing.{Refuses, cancel-Refuses, delete_template-Refuses}
use event_driven_notificatio.Service
use event_driven_notificatio.Service.Notifications.{NotificationService}
use event_driven_notificatio.Service.Refusing
use event_driven_notificatio.Service.TemplateRefusing
use event_driven_notificatio.Api.Responses.{Body, Response}
use event_driven_notificatio.Api.Handlers.{
  respond, answer_with, with_body, with_id, create_notification, create_notifications,
  cancel_notification, create_template, update_one_template, delete_one_template,
}
use event_driven_notificatio.Api.Routes.{
  Route, get_health, get_ready, post_notifications, post_notifications_batch, get_notifications_id,
  get_notifications, get_batches_notifications, post_notifications_cancel,
  get_notifications_attempts, post_templates, get_templates, get_templates_id, put_templates_id,
  delete_templates_id, get_ws_notifications_id, connect, serve,
}
use event_driven_notificatio.Api.Reading.{serve-reads}

-- Only the response to an error has such a status.
respond_refused :
    {A : Type 0} (status : ℕ) (body : A → Body) (r : Result Error A)
    → status < 400
    → 400 ≤ (respond status body r).status
    → (e : Error) × (r ≡ err e)
unfolding respond
respond_refused status body (ok a) low high = absurd (omega arith)
respond_refused status body (err e) low high = (e, refl)

module _ (env : Services) where
  -- A response with such a status comes with tables as they were.
  abbrev Keeps : Database → Response × W env → Type 0
  Keeps before (response, w') = 400 ≤ response.status → w'.db ≡ before

  answer_with-Keeps :
      {A : Type 0} (status : ℕ) (body : A → Body) (call : Action env (Result Error A)) (w : W env)
      → status < 400
      → Refuses env w.db (call w)
      → Keeps w.db (answer_with env status body call w)
  unfolding answer_with
  answer_with-Keeps status body call w low refuses high =
      let (e, told) = respond_refused status body (call w).0 low high in refuses e told

  with_body-Keeps :
      {A : Type 0} (o : Option A) (next : A → Action env Response) (w : W env)
      → ((a : A) → Keeps w.db (next a w))
      → Keeps w.db (with_body env o next w)
  unfolding with_body
  with_body-Keeps none next w h high = refl
  with_body-Keeps (some a) next w h high = h a high

  with_id-Keeps :
      (message : Str) (o : Option ℕ) (next : ℕ → Action env Response) (w : W env)
      → ((id : ℕ) → Keeps w.db (next id w))
      → Keeps w.db (with_id env message o next w)
  unfolding with_id
  with_id-Keeps message none next w h high = refl
  with_id-Keeps message (some id) next w h high = h id high

  read-Keeps :
      (s : NotificationService) (route : Route) (w : W env)
      → Later env w (serve env s route w).1
      → Keeps w.db (serve env s route w)
  read-Keeps s route w later high = ap (λ v. v.db) later.1

  -- Where the calls are answered, a request that gets a response with a status of 400 or above has
  -- changed nothing in the tables.
  pub serve-refused :
      (steady : (k : ℕ) → env.fault k ≡ answered) (s : NotificationService) (route : Route)
      (w : W env)
      → 400 ≤ (serve env s route w).0.status
      → (serve env s route w).1.db ≡ w.db
  unfolding serve create_notification create_notifications cancel_notification create_template
      update_one_template delete_one_template connect
  serve-refused steady s (post_notifications body) w high =
      with_body-Keeps (env.decode_notification body) _ w
        (λ req.
          answer_with-Keeps 201 _ (Service.Notifications.create env s req) w (omega arith)
            (Service.Refusing.create-Refuses env steady s req w))
        high
  serve-refused steady s (post_notifications_batch body) w high =
      with_body-Keeps (env.decode_batch body) _ w
        (λ req.
          answer_with-Keeps 201 _ (Service.Batches.create_all env s req) w (omega arith)
            (Service.Refusing.create_all-Refuses env steady s req w))
        high
  serve-refused steady s (post_notifications_cancel path) w high =
      with_id-Keeps _ (env.uuid_parse path) _ w
        (λ id.
          answer_with-Keeps 200 _ (cancel env id) w (omega arith) (cancel-Refuses env steady id w))
        high
  serve-refused steady s (post_templates body) w high =
      with_body-Keeps (env.decode_template body) _ w
        (λ req.
          answer_with-Keeps 201 _ (Service.Templates.create env req) w (omega arith)
            (Service.TemplateRefusing.create-Refuses env steady req w))
        high
  serve-refused steady s (put_templates_id path body) w high =
      with_id-Keeps _ (env.uuid_parse path) _ w
        (λ id. with_body-Keeps (env.decode_template_update body) _ w (λ req.
          answer_with-Keeps 200 _ (Service.Templates.update env id req) w (omega arith)
            (Service.TemplateRefusing.update-Refuses env steady id req w)))
        high
  serve-refused steady s (delete_templates_id path) w high =
      with_id-Keeps _ (env.uuid_parse path) _ w
        (λ id.
          answer_with-Keeps 204 _ (delete_template env id) w (omega arith)
            (delete_template-Refuses env steady id w))
        high
  serve-refused steady s get_health w high =
      read-Keeps s get_health w (serve-reads env s get_health w tt) high
  serve-refused steady s get_ready w high =
      read-Keeps s get_ready w (serve-reads env s get_ready w tt) high
  serve-refused steady s (get_notifications_id p) w high =
      read-Keeps s (get_notifications_id p) w (serve-reads env s (get_notifications_id p) w tt) high
  serve-refused steady s (get_notifications q) w high =
      read-Keeps s (get_notifications q) w (serve-reads env s (get_notifications q) w tt) high
  serve-refused steady s (get_batches_notifications p) w high =
      read-Keeps s (get_batches_notifications p) w
        (serve-reads env s (get_batches_notifications p) w tt) high
  serve-refused steady s (get_notifications_attempts p) w high =
      read-Keeps s (get_notifications_attempts p) w
        (serve-reads env s (get_notifications_attempts p) w tt) high
  serve-refused steady s get_templates w high =
      read-Keeps s get_templates w (serve-reads env s get_templates w tt) high
  serve-refused steady s (get_templates_id p) w high =
      read-Keeps s (get_templates_id p) w (serve-reads env s (get_templates_id p) w tt) high
  serve-refused steady s (get_ws_notifications_id path accepted) w high = refl
