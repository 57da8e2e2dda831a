-- ===== src/Tests/Components.antt =====
-- The theorems about single components, each at one concrete input.
use event_driven_notificatio.Prelude.{
  err, ok, not, ◌||◌, ◌&&◌, ltb, any, ◌*◌, ◌^◌, ◌≤◌, ◌≡◌, ◌↔◌, if◌then◌else◌, ◌==◌, refl, List, [],
  ◌∷◌, map,
}
use event_driven_notificatio.Prelude.Text.{str}
use event_driven_notificatio.Prelude.{some}
use event_driven_notificatio.Services.{World}
use event_driven_notificatio.Delivery.Retry.{second, max_delay, backoff}
use event_driven_notificatio.Delivery.Backoff.{backoff_exact, backoff_bounds}
use event_driven_notificatio.Api.Responses.{no_body}
use event_driven_notificatio.Websocket.Hub.{
  watching, Subscribers, watchers, subscribe, unsubscribe, broadcast, frame,
}
use event_driven_notificatio.Websocket.Watching.{
  Event, opened, ended, after, IsValid, watches-subscribe, watches-unsubscribe, watches,
  unsubscribe-subscribe, after-IsValid,
}
use event_driven_notificatio.Websocket.Broadcast.{broadcast-frames}
use event_driven_notificatio.Worker.Member.{parse_member}
use event_driven_notificatio.Worker.Parsing.{Reads, parse_member_iff}
use event_driven_notificatio.Tests.Environment.{Memory, empty_memory, steady}

abbrev hub : Subscribers
hub = (7, 70 ∷ 71 ∷ []) ∷ (8, 80 ∷ []) ∷ []

abbrev watched : World Memory
watched = record {
  db = record { notifications = []; attempts = []; templates = [] };
  redis = empty_memory;
  subscribers = hub;
  frames = [];
  metrics = [];
  requests = [];
  step = 0;
}

watches-subscribe_example :
    watches 8 80 (subscribe 8 81 hub) ≡ (watches 8 80 hub || (8 == 8 && 81 == 80))
watches-subscribe_example = watches-subscribe 8 81 8 80 hub

hub-IsValid : IsValid hub
unfolding watchers any
hub-IsValid = (refl, (λ e. cc), (refl, (refl, tt)), (refl, (λ e. cc), (refl, tt), tt))

watches-unsubscribe_example :
    watches 7 70 (unsubscribe 7 70 hub) ≡ (watches 7 70 hub && not (7 == 7 && 70 == 70))
watches-unsubscribe_example = watches-unsubscribe 7 70 7 70 hub hub-IsValid

unsubscribe-subscribe_example : unsubscribe 9 90 (subscribe 9 90 hub) ≡ hub
unfolding watchers any
unsubscribe-subscribe_example = unsubscribe-subscribe 9 90 hub hub-IsValid refl

abbrev events : List Event
events =
    opened (str "1111111") (ok 70)
    ∷ opened (str "1111111") (ok 71)
    ∷ opened (str "1") (err (record { status = 501; body = no_body }))
    ∷ ended (watching 7 70)
    ∷ opened (str "11111111") (ok 80)
    ∷ ended (watching 7 71)
    ∷ []

after-IsValid_example : IsValid (after steady [] events)
after-IsValid_example = after-IsValid steady events

broadcast-frames_example :
    (broadcast steady 7 (str "delivered") watched).1.frames
    ≡ map (λ c. (c, frame steady 7 (str "delivered"))) (watchers 7 hub)
broadcast-frames_example = broadcast-frames steady (λ n. refl) 7 (str "delivered") watched

backoff_exact_example : backoff 3 ≡ (if ltb 3 9 then second * 2 ^ 3 else max_delay)
backoff_exact_example = backoff_exact 3

backoff_bounds_example :
    (second ≤ backoff 8)
    × (backoff 8 ≤ max_delay)
    × (backoff 8 ≤ backoff 9)
    × (backoff 9 ≤ 2 * backoff 8)
backoff_bounds_example = backoff_bounds 8

parse_member_iff_example :
    (parse_member (str "17:sms:high") ≡ some (str "17" ∷ str "sms" ∷ str "high" ∷ []))
    ↔ Reads (str "17:sms:high") (str "17" ∷ str "sms" ∷ str "high" ∷ [])
parse_member_iff_example =
    parse_member_iff (str "17:sms:high") (str "17" ∷ str "sms" ∷ str "high" ∷ [])
