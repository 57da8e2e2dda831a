-- ===== src/Websocket/Hub.antt =====
-- The subscriber map of `Hub`, an association list whose inner maps are lists without repetition, and
-- its methods. A write to a connection that fails is only logged; `World.frames` holds what was
-- written.
use event_driven_notificatio.Prelude.{
  ok, err, Result, some, Option, ℕ, suc, ◌==◌, if◌then◌else◌, List, [], ◌∷◌, ◌++◌, any, Option,
  none, some,
}
use event_driven_notificatio.Prelude.Text.{Str, str}
use event_driven_notificatio.Prelude.State.{each}
use event_driven_notificatio.Api.Responses.{Response, text_body}
use event_driven_notificatio.Services.{Services, answered, refused, unacknowledged, Action}

abbrev pub Subscribers : Type 0
Subscribers = List (ℕ × List ℕ)

-- `h.subscribers[id]`; a missing key reads as the nil map, which has no members.
unfoldable pub watchers : ℕ → Subscribers → List ℕ
watchers id [] = []
watchers id ((j, conns) ∷ m) = if j == id then conns else watchers id m

unfoldable pub add_conn : ℕ → List ℕ → List ℕ
add_conn c conns = if any (λ d. d == c) conns then conns else conns ++ c ∷ []

unfoldable pub remove_conn : ℕ → List ℕ → List ℕ
remove_conn c [] = []
remove_conn c (d ∷ conns) = if d == c then conns else d ∷ remove_conn c conns

unfoldable pub subscribe : ℕ → ℕ → Subscribers → Subscribers
subscribe id c [] = (id, c ∷ []) ∷ []
subscribe id c ((j, conns) ∷ m) =
    if j == id then (j, add_conn c conns) ∷ m else (j, conns) ∷ subscribe id c m

-- An entry that is left empty is deleted.
unfoldable pub keep_watched : ℕ → List ℕ → Subscribers → Subscribers
keep_watched j [] m = m
keep_watched j (c ∷ conns) m = (j, c ∷ conns) ∷ m

unfoldable pub unsubscribe : ℕ → ℕ → Subscribers → Subscribers
unsubscribe id c [] = []
unsubscribe id c ((j, conns) ∷ m) =
    if j == id then keep_watched j (remove_conn c conns) m else (j, conns) ∷ unsubscribe id c m

-- How `HandleWebSocket` begins: with a response, or with a connection that watches a notification.
pub data Opening : Type 0 where
  responded : Response → Opening
  watching : ℕ → ℕ → Opening

-- The ID of the path as `uuid.Parse` reads it, and what `websocket.Accept` gives: a connection, or an
-- error for which it has written a response of its own.
unfoldable pub begin_watching : Option ℕ → Result Response ℕ → Subscribers → Opening × Subscribers
begin_watching none accepted m =
    (responded (record { status = 400; body = text_body (str "invalid notification ID") }), m)
begin_watching (some id) (err response) m = (responded response, m)
begin_watching (some id) (ok c) m = (watching id c, subscribe id c m)

-- The deferred call, after `conn.Read` has failed.
unfoldable pub close_web_socket : Opening → Subscribers → Subscribers
close_web_socket (responded response) m = m
close_web_socket (watching id c) m = unsubscribe id c m

module _ (env : Services) where
  -- `HandleWebSocket` up to the loop that reads and drops messages until the connection ends.
  unfoldable pub open_web_socket : Str → Result Response ℕ → Subscribers → Opening × Subscribers
  open_web_socket text accepted m = begin_watching (env.uuid_parse text) accepted m

  unfoldable pub frame : ℕ → Str → Str
  frame id status =
      str "{\"notification_id\":\""
      ++ (env.uuid_string id ++ (str "\",\"status\":\"" ++ (status ++ str "\"}")))

  -- `conn.Write`
  unfoldable pub write : Str → ℕ → Action env (Unit {0})
  write msg c w =
      let w1 = record w { step = suc w.step } in
      let sent = record w1 { frames = w.frames ++ (c, msg) ∷ [] } in
      (tt, elim (env.fault w.step) [ answered ↦ sent | refused ↦ w1 | unacknowledged ↦ sent ])

  unfoldable pub broadcast : ℕ → Str → Action env (Unit {0})
  unfolding write
  broadcast id status w = each (write (frame id status)) (watchers id w.subscribers) w
