-- ===== src/Ratelimit.antt =====
-- internal/ratelimit/limiter.go: the Lua script, which Redis runs as one command, and `Allow`. The
-- `math.random` of the script and the program's clock come from the environment.
pub mod Window
pub mod Bound
pub mod Repeats
use event_driven_notificatio.Prelude.{
  ℕ, ◌-◌, ◌/◌, ◌==◌, Bool, ltb, ◌++◌, if◌then◌else◌, Result, ok, err,
}
use event_driven_notificatio.Prelude.Text.{Str, str, decimal}
use event_driven_notificatio.Prelude.State.{pure, ◌>>=◌}
use event_driven_notificatio.Domain.{Error}
use event_driven_notificatio.Services.{Services, Action, redis_do, now, draw}

pub record Limiter : Type 0 where
  pub max_per_sec : ℕ
  pub window_ms : ℕ

-- `NewLimiter`
unfoldable pub new_limiter : ℕ → Limiter
new_limiter max_per_sec = record { max_per_sec = max_per_sec; window_ms = 1000 }

abbrev pub limit_key : Str → Str
limit_key channel = str "ratelimit:" ++ channel

-- `now .. '-' .. math.random(1000000)`
unfoldable pub window_member : ℕ → ℕ → Str
window_member t random = decimal t ++ (str "-" ++ decimal random)

module _ (env : Services) where
  -- `ZREMRANGEBYSCORE key -inf now-window`: with a negative bound there is nothing to remove.
  unfoldable pub drop_expired : Str → ℕ → ℕ → env.Redis → env.Redis
  drop_expired key window t r =
      if ltb t window then r else env.zrem_range_by_score key (t - window) r

  unfoldable pub sliding_window : Str → ℕ → ℕ → ℕ → ℕ → env.Redis → ℕ × env.Redis
  unfolding drop_expired
  sliding_window key window max_requests t random r =
      let r1 = drop_expired key window t r in
      if ltb (env.zcard key r1) max_requests
      then (1, env.pexpire key window (env.zadd key t (window_member t random) r1))
      else (0, r1)

  unfoldable pub allow : Limiter → Str → Action env (Result Error Bool)
  unfolding sliding_window
  allow limiter channel = do
    t ← now env
    random ← draw env
    r ← redis_do env (
        sliding_window (limit_key channel) limiter.window_ms limiter.max_per_sec (t / 1000000)
          random)
    pure (elim r [ ok answer ↦ ok (answer == 1) | err e ↦ err e ])
