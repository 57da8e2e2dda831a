-- ===== src/Queue/Producer.antt =====
-- internal/queue/producer.go
use event_driven_notificatio.Prelude.{ℕ, List, [], ◌∷◌, ◌++◌, Result, ok, err}
use event_driven_notificatio.Prelude.Text.{Str, str}
use event_driven_notificatio.Prelude.State.{pure, ◌>>=◌}
use event_driven_notificatio.Domain.{Error, Channel, Priority, stream_key}
use event_driven_notificatio.Services.{Services, Entry, Action, redis_do}

abbrev pub delayed_key : Str
delayed_key = str "notifications:delayed"

module _ (env : Services) where
  unfoldable pub entry : ℕ → Channel → Entry
  entry id channel = (str "notification_id", env.uuid_string id) ∷ (str "channel", channel) ∷ []

  unfoldable pub enqueue : ℕ → Channel → Priority → Action env (Result Error (Unit {0}))
  unfolding entry
  enqueue id channel priority =
      redis_do env (λ r. (tt, env.xadd (stream_key priority) (entry id channel) r))

  -- `fmt.Sprintf("%s:%s:%s", id, channel, priority)`
  unfoldable pub member : ℕ → Channel → Priority → Str
  member id channel priority = env.uuid_string id ++ (str ":" ++ (channel ++ (str ":" ++ priority)))

  unfoldable pub enqueue_delayed : ℕ → Channel → Priority → ℕ → Action env (Result Error (Unit {0}))
  enqueue_delayed id channel priority retry_at =
      redis_do env (λ r. (tt, env.zadd delayed_key retry_at (member id channel priority) r))

  -- The error of the removal is dropped.
  unfoldable pub remove_popped : List Str → Action env (Result Error (List Str))
  remove_popped [] = pure (ok [])
  remove_popped (m ∷ ms) = do
    removed ← redis_do env (λ r. (tt, env.zrem delayed_key (m ∷ ms) r))
    pure (ok (m ∷ ms))

  unfoldable pub remove_due : Result Error (List Str) → Action env (Result Error (List Str))
  remove_due (err e) = pure (err e)
  remove_due (ok members) = remove_popped members

  -- The pipeline holds one command.
  unfoldable pub pop_delayed_due : ℕ → ℕ → Action env (Result Error (List Str))
  unfolding remove_due
  pop_delayed_due t count = do
    due ← redis_do env (λ r. (env.zrange_by_score delayed_key t count r, r))
    remove_due due
