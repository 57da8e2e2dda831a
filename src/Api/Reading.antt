-- ===== src/Api/Reading.antt =====
-- The requests with the method GET.
use event_driven_notificatio.Prelude.{ℕ, refl, Option, none, some, Result, ok, err}
use event_driven_notificatio.Prelude.Text.{Str}
use event_driven_notificatio.Domain.{Error, Notification}
use event_driven_notificatio.Services.{Services, W, Action, exec}
use event_driven_notificatio.Repository.Sql.{failure}
use event_driven_notificatio.Repository.Notifications.{get_by_id}
use event_driven_notificatio.Repository.Queries.{
  Later, Later-trans, exec-Later, ping-Later, get_by_id-Later, list-Later,
  get_delivery_attempts-Later, get_template-Later, list_templates-Later,
}
use event_driven_notificatio.Service
use event_driven_notificatio.Service.Notifications.{NotificationService, attempts_of}
use event_driven_notificatio.Api.Responses.{Response}
use event_driven_notificatio.Api.Query.{Filtered, parse_filter}
use event_driven_notificatio.Api.Handlers.{
  answer_with, with_id, get_notification, list_filtered, list_notifications, batch_filter,
  list_by_batch, get_attempts, get_one_template, list_all_templates, health, ready,
}
use event_driven_notificatio.Api.Routes.{
  Route, get_health, get_ready, post_notifications, post_notifications_batch, get_notifications_id,
  get_notifications, get_batches_notifications, post_notifications_cancel,
  get_notifications_attempts, post_templates, get_templates, get_templates_id, put_templates_id,
  delete_templates_id, get_ws_notifications_id, connect, serve,
}

abbrev pub IsGet : Route → Type 0
IsGet (post_notifications body) = ⊥
IsGet (post_notifications_batch body) = ⊥
IsGet (post_notifications_cancel path) = ⊥
IsGet (post_templates body) = ⊥
IsGet (put_templates_id path body) = ⊥
IsGet (delete_templates_id path) = ⊥
IsGet _ = Unit

module _ (env : Services) where
  with_id-Later :
      (message : Str) (o : Option ℕ) (next : ℕ → Action env Response) (w : W env)
      → ((id : ℕ) → Later env w (next id w).1)
      → Later env w (with_id env message o next w).1
  unfolding with_id
  with_id-Later message none next w h = (w.step, refl)
  with_id-Later message (some id) next w h = h id

  attempts_of-Later :
      (id : ℕ) (r : Result Error Notification) (w : W env) → Later env w (attempts_of env id r w).1
  unfolding attempts_of
  attempts_of-Later id (err e) w = (w.step, refl)
  attempts_of-Later id (ok n) w = get_delivery_attempts-Later env id w

  service_attempts-Later :
      (id : ℕ) (w : W env) → Later env w (Service.Notifications.get_delivery_attempts env id w).1
  unfolding Service.Notifications.get_delivery_attempts
  service_attempts-Later id w =
      let found = get_by_id env id w in
      Later-trans env w found.1 (attempts_of env id found.0 found.1).1 (get_by_id-Later env id w)
        (attempts_of-Later id found.0 found.1)

  list_filtered-Later : (f : Filtered) (w : W env) → Later env w (list_filtered env f w).1
  unfolding list_filtered answer_with
  list_filtered-Later (err message) w = (w.step, refl)
  list_filtered-Later (ok filter) w = list-Later env filter w

  ready-Later : (w : W env) → Later env w (ready env w).1
  unfolding ready
  ready-Later w =
      let pinged = (exec env failure (λ _ db. (ok tt, db)) w).1 in
      Later-trans env w pinged (ready env w).1
        (exec-Later env failure (λ _ db. (ok tt, db)) w (λ t db. refl)) (ping-Later env pinged)

  -- Nothing but the number of calls changes, and for a request for a connection the hub's map.
  abbrev pub ReadsOnly : Route → W env → W env → Type 0
  ReadsOnly (get_ws_notifications_id path accepted) w w' =
      Later env (record w { subscribers = w'.subscribers }) w'
  ReadsOnly _ w w' = Later env w w'

  -- A request with the method GET changes nothing, whichever calls fail: the tables, Redis, the
  -- subscriptions, what was written to them, the metrics and the requests made are as before. Only the
  -- request for a WebSocket may change the subscriptions, and nothing else. (The metrics have no route
  -- here.)
  pub serve-reads :
      (s : NotificationService) (route : Route) (w : W env)
      → IsGet route
      → ReadsOnly route w (serve env s route w).1
  unfolding serve answer_with health get_notification list_notifications list_by_batch get_attempts
      get_one_template list_all_templates connect
  serve-reads s get_health w get = (w.step, refl)
  serve-reads s get_ready w get = ready-Later w
  serve-reads s (post_notifications body) w get = absurd get
  serve-reads s (post_notifications_batch body) w get = absurd get
  serve-reads s (get_notifications_id path) w get =
      with_id-Later _ (env.uuid_parse path) _ w (λ id. get_by_id-Later env id w)
  serve-reads s (get_notifications query) w get = list_filtered-Later (parse_filter env query) w
  serve-reads s (get_batches_notifications path) w get =
      with_id-Later _ (env.uuid_parse path) _ w (λ id. list-Later env (batch_filter env id) w)
  serve-reads s (post_notifications_cancel path) w get = absurd get
  serve-reads s (get_notifications_attempts path) w get =
      with_id-Later _ (env.uuid_parse path) _ w (λ id. service_attempts-Later id w)
  serve-reads s (post_templates body) w get = absurd get
  serve-reads s get_templates w get = list_templates-Later env w
  serve-reads s (get_templates_id path) w get =
      with_id-Later _ (env.uuid_parse path) _ w (λ id. get_template-Later env id w)
  serve-reads s (put_templates_id path body) w get = absurd get
  serve-reads s (delete_templates_id path) w get = absurd get
  serve-reads s (get_ws_notifications_id path accepted) w get = (w.step, refl)
