-- ===== src/Websocket/Watching.antt =====
-- internal/api/websocket/hub.go: the subscriber map of the hub, what each method does to it, and its
-- invariant.
use event_driven_notificatio.Prelude.{
  ◌∙◌, ap, not, ◌⊎◌, ◌&&◌, ◌||◌, none, some, Option, Result, ok, err, ℕ, ◌≡◌, refl, ◌≢◌, ◌==◌, Bool,
  true, false, if◌then◌else◌, List, [], ◌∷◌, any, arith, Bool-cases, inl, inr,
}
use event_driven_notificatio.Prelude.Text.{Str}
use event_driven_notificatio.Services.{Services}
use event_driven_notificatio.Api.Responses.{Response}
use event_driven_notificatio.Websocket.Hub.{
  begin_watching, responded, watching, Opening, open_web_socket, close_web_socket, keep_watched,
  remove_conn, unsubscribe, Subscribers, watchers, add_conn, subscribe,
}
use event_driven_notificatio.Websocket.Connections.{
  add_conn_lem, any-add_conn, Distinct-remove_conn, any-remove_conn_exact, remove-append, Distinct,
}

abbrev pub watches : ℕ → ℕ → Subscribers → Bool
watches id c m = any (λ d. d == c) (watchers id m)

-- No key is listed twice, no set of connections is empty, and none repeats a connection.
abbrev pub IsValid : Subscribers → Type 0
IsValid [] = Unit
IsValid ((id, conns) ∷ m) = (watchers id m ≡ []) × (conns ≢ []) × Distinct conns × IsValid m

watchers-subscribe :
    (id c j : ℕ) (m : Subscribers)
    → watchers j (subscribe id c m) ≡ (if id == j then add_conn c (watchers id m) else watchers j m)
unfolding watchers subscribe add_conn any
watchers-subscribe id c j [] = ground arith
watchers-subscribe id c j ((i, conns) ∷ m) = ground (arith, watchers-subscribe id c j m)

-- After `subscribe` a connection watches a notification exactly if it did before, or if these are the
-- connection and the notification of the call.
pub watches-subscribe :
    (id c j d : ℕ) (m : Subscribers)
    → watches j d (subscribe id c m) ≡ (watches j d m || (id == j && c == d))
watches-subscribe id c j d m =
    ap (any (λ e. e == d)) (watchers-subscribe id c j m) ∙ at_key (Bool-cases (id == j))
  where
    at_key :
        (id == j ≡ true) ⊎ (id == j ≡ false)
        → any (λ e. e == d) (if id == j then add_conn c (watchers id m) else watchers j m)
          ≡ (watches j d m || (id == j && c == d))
    at_key (inl same) =
        let e : id ≡ j = ground arith in
        rw same (any-add_conn c d (watchers id m) ∙ ap (λ k. watches k d m || c == d) e)
    at_key (inr other) = rw other (ground arith)

subscribe-IsValid : (id c : ℕ) (m : Subscribers) → IsValid m → IsValid (subscribe id c m)
unfolding watchers subscribe any
subscribe-IsValid id c [] h = (refl, (λ e. cc), (refl, tt), tt)
subscribe-IsValid id c ((i, conns) ∷ m) h =
    ground (arith, add_conn_lem c conns, subscribe-IsValid id c m, watchers-subscribe id c i m)

watchers-keep_watched :
    (j i : ℕ) (conns : List ℕ) (m : Subscribers)
    → watchers i m ≡ []
    → watchers j (keep_watched i conns m) ≡ (if i == j then conns else watchers j m)
unfolding watchers keep_watched
watchers-keep_watched j i [] m h = ground arith
watchers-keep_watched j i (c ∷ conns) m h = ground arith

watchers-unsubscribe :
    (id c j : ℕ) (m : Subscribers)
    → IsValid m
    → watchers j (unsubscribe id c m)
      ≡ (if id == j then remove_conn c (watchers id m) else watchers j m)
unfolding watchers unsubscribe remove_conn
watchers-unsubscribe id c j [] h = ground arith
watchers-unsubscribe id c j ((i, conns) ∷ m) h =
    ground (arith, watchers-unsubscribe id c j m, watchers-keep_watched j i (remove_conn c conns) m)

watchers-Distinct : (id : ℕ) (m : Subscribers) → IsValid m → Distinct (watchers id m)
unfolding watchers
watchers-Distinct id [] h = tt
watchers-Distinct id ((j, conns) ∷ m) h = elim (Bool-cases (j == id)) [
  | inl here ↦ rw here h.2
  | inr other ↦ rw other (watchers-Distinct id m h.3)
]

-- In a valid map, after `unsubscribe` a connection watches a notification exactly if it did before and
-- these are not the connection and the notification of the call.
pub watches-unsubscribe :
    (id c j d : ℕ) (m : Subscribers)
    → IsValid m
    → watches j d (unsubscribe id c m) ≡ (watches j d m && not (id == j && c == d))
watches-unsubscribe id c j d m h =
    ap (any (λ e. e == d)) (watchers-unsubscribe id c j m h) ∙ at_key (Bool-cases (id == j))
  where
    at_key :
        (id == j ≡ true) ⊎ (id == j ≡ false)
        → any (λ e. e == d) (if id == j then remove_conn c (watchers id m) else watchers j m)
          ≡ (watches j d m && not (id == j && c == d))
    at_key (inl same) =
        let e : id ≡ j = ground arith in
        rw same (
          any-remove_conn_exact c d (watchers id m) (watchers-Distinct id m h)
          ∙ ap (λ k. watches k d m && not (c == d)) e)
    at_key (inr other) = rw other (ground arith)

keep_watched-IsValid :
    (i : ℕ) (conns : List ℕ) (m : Subscribers)
    → watchers i m ≡ []
    → Distinct conns
    → IsValid m
    → IsValid (keep_watched i conns m)
unfolding keep_watched
keep_watched-IsValid i [] m w d h = h
keep_watched-IsValid i (c ∷ conns) m w d h = (w, (λ e. cc), d, h)

unsubscribe-IsValid : (id c : ℕ) (m : Subscribers) → IsValid m → IsValid (unsubscribe id c m)
unfolding watchers unsubscribe
unsubscribe-IsValid id c [] h = tt
unsubscribe-IsValid id c ((i, conns) ∷ m) h = ground (
  arith,
  unsubscribe-IsValid id c m,
  watchers-unsubscribe id c i m,
  keep_watched-IsValid i (remove_conn c conns) m,
  Distinct-remove_conn c conns,
)

keep_nonempty :
    (i : ℕ) (conns : List ℕ) (m : Subscribers)
    → conns ≢ []
    → keep_watched i conns m ≡ (i, conns) ∷ m
unfolding keep_watched
keep_nonempty i [] m h = absurd (h refl)
keep_nonempty i (c ∷ conns) m h = refl

-- In a valid map, to unsubscribe a connection that was just subscribed and did not watch before
-- gives back the map as it was, so closed connections leave nothing behind.
pub unsubscribe-subscribe :
    (id c : ℕ) (m : Subscribers)
    → IsValid m
    → watches id c m ≡ false
    → unsubscribe id c (subscribe id c m) ≡ m
unfolding watchers subscribe unsubscribe add_conn keep_watched remove_conn any
unsubscribe-subscribe id c [] h e = ground arith
unsubscribe-subscribe id c ((i, conns) ∷ m) h e =
    ground (arith, unsubscribe-subscribe id c m, remove-append c conns, keep_nonempty i conns m)

-- Requests for a connection, with what the upgrade gives, and the ends of what they have opened.
pub data Event : Type 0 where
  opened : Str → Result Response ℕ → Event
  ended : Opening → Event

begin_watching-IsValid :
    (id : Option ℕ) (accepted : Result Response ℕ) (m : Subscribers)
    → IsValid m
    → IsValid (begin_watching id accepted m).1
unfolding begin_watching
begin_watching-IsValid none accepted m h = h
begin_watching-IsValid (some id) (err response) m h = h
begin_watching-IsValid (some id) (ok c) m h = subscribe-IsValid id c m h

module _ (env : Services) where
  pub after : Subscribers → List Event → Subscribers
  after m [] = m
  after m (opened text accepted ∷ es) = after (open_web_socket env text accepted m).1 es
  after m (ended o ∷ es) = after (close_web_socket o m) es

  open_web_socket-IsValid :
      (text : Str) (accepted : Result Response ℕ) (m : Subscribers)
      → IsValid m
      → IsValid (open_web_socket env text accepted m).1
  unfolding open_web_socket
  open_web_socket-IsValid text accepted m h =
      begin_watching-IsValid (env.uuid_parse text) accepted m h

  close_web_socket-IsValid :
      (o : Opening) (m : Subscribers) → IsValid m → IsValid (close_web_socket o m)
  unfolding close_web_socket
  close_web_socket-IsValid (responded response) m h = h
  close_web_socket-IsValid (watching id c) m h = unsubscribe-IsValid id c m h

  after-IsValid_from : (m : Subscribers) (es : List Event) → IsValid m → IsValid (after m es)
  unfolding after
  after-IsValid_from m [] h = h
  after-IsValid_from m (opened text accepted ∷ es) h =
      after-IsValid_from (open_web_socket env text accepted m).1 es
        (open_web_socket-IsValid text accepted m h)
  after-IsValid_from m (ended o ∷ es) h =
      after-IsValid_from (close_web_socket o m) es (close_web_socket-IsValid o m h)

  -- However requests for connections come and connections end, the hub's map lists no notification
  -- twice, keeps no entry without a connection and no connection twice under one notification.
  pub after-IsValid : (es : List Event) → IsValid (after [] es)
  after-IsValid es = after-IsValid_from [] es tt
