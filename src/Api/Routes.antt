-- ===== src/Api/Routes.antt =====
-- internal/api/router.go: which handler serves which route. The metrics, which a handler of package
-- promhttp serves, are left out.
use event_driven_notificatio.Prelude.{ℕ, Result}
use event_driven_notificatio.Prelude.Text.{Str}
use event_driven_notificatio.Services.{Services, Action}
use event_driven_notificatio.Service.Notifications.{NotificationService}
use event_driven_notificatio.Api.Responses.{Response, write_json, no_body}
use event_driven_notificatio.Websocket.Hub.{Opening, responded, watching, open_web_socket}
use event_driven_notificatio.Api.Query.{Query}
use event_driven_notificatio.Api.Handlers.{
  create_notification, create_notifications, get_notification, list_notifications, list_by_batch,
  cancel_notification, get_attempts, create_template, get_one_template, list_all_templates,
  update_one_template, delete_one_template, health, ready,
}

-- A request by its route, with the parts of the path, the query and the body that the handler reads.
pub data Route : Type 0 where
  get_health get_ready : Route
  post_notifications post_notifications_batch : Str → Route
  get_notifications_id : Str → Route
  get_notifications : Query → Route
  get_batches_notifications : Str → Route
  post_notifications_cancel get_notifications_attempts : Str → Route
  post_templates : Str → Route
  get_templates : Route
  get_templates_id : Str → Route
  put_templates_id : Str → Str → Route
  delete_templates_id : Str → Route
  -- with what `websocket.Accept` gives
  get_ws_notifications_id : Str → Result Response ℕ → Route

-- `websocket.Accept` has answered 101 where it returns a connection.
unfoldable pub opening_response : Opening → Response
opening_response (responded response) = response
opening_response (watching id c) = write_json 101 no_body

-- `HandleWebSocket` until it reads from the connection.
unfoldable pub connect : (env : Services) → Str → Result Response ℕ → Action env Response
unfolding opening_response
connect env path accepted w =
    let (opening, m) = open_web_socket env path accepted w.subscribers in
    (opening_response opening, record w { subscribers = m })

module _ (env : Services) (s : NotificationService) where
  unfoldable pub serve : Route → Action env Response
  serve get_health = health env
  serve get_ready = ready env
  serve (post_notifications body) = create_notification env s body
  serve (post_notifications_batch body) = create_notifications env s body
  serve (get_notifications_id path) = get_notification env path
  serve (get_notifications query) = list_notifications env query
  serve (get_batches_notifications path) = list_by_batch env path
  serve (post_notifications_cancel path) = cancel_notification env path
  serve (get_notifications_attempts path) = get_attempts env path
  serve (post_templates body) = create_template env body
  serve get_templates = list_all_templates env
  serve (get_templates_id path) = get_one_template env path
  serve (put_templates_id path body) = update_one_template env path body
  serve (delete_templates_id path) = delete_one_template env path
  serve (get_ws_notifications_id path accepted) = connect env path accepted
