-- ===== src/Queue/Consumer.antt =====
-- internal/queue/consumer.go
use event_driven_notificatio.Prelude.{
  true, Bool, ℕ, Option, none, some, List, [], ◌∷◌, ◌++◌, if◌then◌else◌, Result, ok, err,
}
use event_driven_notificatio.Prelude.Text.{Str, str, same}
use event_driven_notificatio.Prelude.State.{and_then, pure, ◌>>=◌}
use event_driven_notificatio.Domain.{
  internal, Error, priority_high, priority_normal, priority_low, stream_key,
}
use event_driven_notificatio.Services.{Services, Entry, Delivery, Action, redis_do}

pub record Message : Type 0 where
  pub stream_id : Str
  pub message_id : Str
  pub notification_id : Str
  pub channel : Str

abbrev pub consumer_group : Str
consumer_group = str "notifier-workers"

-- The streams in the order in which every command names them.
abbrev pub streams : List Str
streams = stream_key priority_high ∷ stream_key priority_normal ∷ stream_key priority_low ∷ []

-- `msg.Values[key]`
unfoldable pub field : Str → Entry → Option Str
field key [] = none
field key ((k, v) ∷ e) = if same k key then some v else field key e

-- The type assertions panic on a missing field: `none`.
unfoldable pub to_message : Str → Str × Entry → Option Message
unfolding field
to_message stream (id, e) = elim (field (str "notification_id") e) [
  | none ↦ none
  | some n ↦ elim (field (str "channel") e) [
    | none ↦ none
    | some c ↦
        some (record { stream_id = stream; message_id = id; notification_id = n; channel = c })
  ]
]

-- The inner loop over the entries of one stream, then the outer loop.
unfoldable pub stream_messages : Str → List (Str × Entry) → Option (List Message)
unfolding to_message
stream_messages stream [] = some []
stream_messages stream (e ∷ es) = elim (to_message stream e) [
  | none ↦ none
  | some m ↦ elim (stream_messages stream es) [ none ↦ none | some ms ↦ some (m ∷ ms) ]
]

unfoldable pub all_messages : List Delivery → Option (List Message)
unfolding stream_messages
all_messages [] = some []
all_messages ((stream, es) ∷ ds) = elim (stream_messages stream es) [
  | none ↦ none
  | some ms ↦ elim (all_messages ds) [ none ↦ none | some rest ↦ some (ms ++ rest) ]
]

-- Is an answer no error, or only that the group is there?
unfoldable pub is_ensured : Option Str → Bool
is_ensured none = true
is_ensured (some text) = same text (str "BUSYGROUP Consumer Group name already exists")

module _ (env : Services) where
  -- The loop over the streams.
  unfoldable pub ensure_from : List Str → Action env (Result Error (Unit {0}))
  unfolding is_ensured
  ensure_from [] = pure (ok tt)
  ensure_from (s ∷ ss) =
      and_then (redis_do env (env.xgroup_create_mk_stream s consumer_group (str "0")))
        (λ answer. if is_ensured answer then ensure_from ss else pure (err internal))

  unfoldable pub ensure_groups : Action env (Result Error (Unit {0}))
  unfolding ensure_from
  ensure_groups = ensure_from streams

  -- An empty answer is `redis.Nil`. The result is `ok none` if a type assertion panics.
  unfoldable pub read_messages : Str → ℕ → Action env (Result Error (Option (List Message)))
  unfolding all_messages
  read_messages consumer count = do
    r ← redis_do env (env.xread_group consumer_group consumer streams count)
    pure (elim r [ ok ds ↦ ok (all_messages ds) | err e ↦ err e ])

  unfoldable pub ack : Str → Str → Action env (Result Error (Unit {0}))
  ack stream id = redis_do env (λ r. (tt, env.xack stream consumer_group id r))

  -- The loop over the streams; a stream whose XAUTOCLAIM fails is passed over.
  unfoldable pub claim_from : Str → ℕ → List Str → Action env (Option (List Message))
  unfolding stream_messages
  claim_from consumer min_idle [] = pure (some [])
  claim_from consumer min_idle (s ∷ ss) = do
    r ← redis_do env (env.xauto_claim consumer_group consumer s min_idle 10)
    let claimed : List (Str × Entry) = elim r [ ok es ↦ es | err _ ↦ [] ]
    elim (stream_messages s claimed) [
      | none ↦ pure none
      | some ms ↦ do
        rest ← claim_from consumer min_idle ss
        pure (elim rest [ none ↦ none | some more ↦ some (ms ++ more) ])
    ]

  unfoldable pub claim_stale : Str → ℕ → Action env (Option (List Message))
  unfolding claim_from
  claim_stale consumer min_idle = claim_from consumer min_idle streams
