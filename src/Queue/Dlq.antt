-- ===== src/Queue/Dlq.antt =====
-- internal/queue/dlq.go
use event_driven_notificatio.Prelude.{ℕ, Option, List, [], ◌∷◌, take, Result, ok, err}
use event_driven_notificatio.Prelude.Text.{Str, str}
use event_driven_notificatio.Prelude.State.{pure, ◌>>=◌}
use event_driven_notificatio.Domain.{Error}
use event_driven_notificatio.Services.{Services, Entry, Action, redis_do}
use event_driven_notificatio.Queue.Consumer.{Message, stream_messages}

abbrev pub dlq_stream : Str
dlq_stream = str "notifications:dlq"

module _ (env : Services) where
  unfoldable pub dead_entry : ℕ → Str → Str → Entry
  dead_entry id channel last_error =
      (str "notification_id", env.uuid_string id)
      ∷ (str "channel", channel)
      ∷ (str "error", last_error)
      ∷ []

  unfoldable pub push : ℕ → Str → Str → Action env (Result Error (Unit {0}))
  unfolding dead_entry
  push id channel last_error =
      redis_do env (λ r. (tt, env.xadd dlq_stream (dead_entry id channel last_error) r))

  -- The first `count` entries, oldest first.
  unfoldable pub read : ℕ → Action env (Result Error (Option (List Message)))
  read count = do
    r ← redis_do env (λ r. (env.xrange dlq_stream r, r))
    pure (elim r [ ok es ↦ ok (stream_messages dlq_stream (take count es)) | err e ↦ err e ])
