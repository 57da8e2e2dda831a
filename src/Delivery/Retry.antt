-- ===== src/Delivery/Retry.antt =====
-- internal/delivery/retry.go. Durations are nanoseconds. `Backoff` computes in float64: for an attempt
-- of 0 or more its `base * 2^attempt` is exact as long as it is finite, since 10^9 has 21 significant
-- bits, and an infinite value takes the cap; so the product is exact here.
use event_driven_notificatio.Prelude.{ℕ, ◌+◌, ◌*◌, ◌^◌, Bool, ltb, if◌then◌else◌}
use event_driven_notificatio.Prelude.Int.{ℤ, pos, ltb_ℤ}
use event_driven_notificatio.Prelude.State.{pure, ◌>>=◌}
use event_driven_notificatio.Services.{Services, Action, now}

abbrev pub second : ℕ
second = 1000000000

abbrev pub max_delay : ℕ
max_delay = 300000000000

unfoldable pub backoff : ℕ → ℕ
backoff attempt =
    let delay = second * 2 ^ attempt in if ltb max_delay delay then max_delay else delay

unfoldable pub should_retry : ℕ → ℤ → Bool
should_retry attempt_count max_retries = ltb_ℤ (pos attempt_count) max_retries

module _ (env : Services) where
  unfoldable pub retry_at : ℕ → Action env ℕ
  retry_at attempt = do t ← now env; pure (t + backoff attempt)
