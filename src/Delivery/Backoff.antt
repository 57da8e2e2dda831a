-- ===== src/Delivery/Backoff.antt =====
-- What the retry policy of internal/delivery/retry.go promises.
use event_driven_notificatio.Prelude.{
  inr, inl, Bool-cases, ltb, if◌then◌else◌, false, ℕ, zero, suc, ◌+◌, ◌-◌, ◌*◌, ◌^◌, ◌≤◌, ◌<◌, ◌≡◌,
  refl, ◌↔◌, true, arith,
}
use event_driven_notificatio.Prelude.Int.{ℤ, pos_part}
use native.Mathlib.Nat.{pow-suc}
use event_driven_notificatio.Delivery.Retry.{second, max_delay, backoff, should_retry}

pow_grows : (k : ℕ) → 512 ≤ 2 ^ (9 + k)
pow_grows zero = omega arith
pow_grows (suc k) =
    let e : 9 + suc k ≡ suc (9 + k) = omega arith in rw (e, pow-suc) (omega (arith, pow_grows k))

large : (a : ℕ) → 9 ≤ a → 512 ≤ 2 ^ a
large a h = let e : a ≡ 9 + (a - 9) = omega arith in rw e (pow_grows (a - 9))

backoff_large : (a : ℕ) → 9 ≤ a → backoff a ≡ max_delay
unfolding backoff
backoff_large a h = ground (arith, large a h)

backoff_small : (a : ℕ) → a < 9 → backoff a ≡ second * 2 ^ a
unfolding backoff
backoff_small zero h = refl
backoff_small (suc zero) h = refl
backoff_small (suc (suc zero)) h = refl
backoff_small (suc (suc (suc zero))) h = refl
backoff_small (suc (suc (suc (suc zero)))) h = refl
backoff_small (suc (suc (suc (suc (suc zero))))) h = refl
backoff_small (suc (suc (suc (suc (suc (suc zero)))))) h = refl
backoff_small (suc (suc (suc (suc (suc (suc (suc zero))))))) h = refl
backoff_small (suc (suc (suc (suc (suc (suc (suc (suc zero)))))))) h = refl
backoff_small (suc (suc (suc (suc (suc (suc (suc (suc (suc a))))))))) h = absurd (omega arith)

-- The delay is one second doubled `a` times while `a` is below 9, and five minutes from 9 on.
pub backoff_exact : (a : ℕ) → backoff a ≡ (if ltb a 9 then second * 2 ^ a else max_delay)
backoff_exact a = elim (Bool-cases (ltb a 9)) [
  | inl small ↦ rw small (backoff_small a (ground arith))
  | inr over ↦ rw over (backoff_large a (ground arith))
]

pow_pos : (a : ℕ) → 1 ≤ 2 ^ a
pow_pos zero = omega arith
pow_pos (suc a) = rw pow-suc (omega (arith, pow_pos a))

-- The delay lies between one second and five minutes, and the next delay is no shorter and at most
-- twice as long.
pub backoff_bounds :
    (a : ℕ)
    → (second ≤ backoff a)
      × (backoff a ≤ max_delay)
      × (backoff a ≤ backoff (suc a))
      × (backoff (suc a) ≤ 2 * backoff a)
unfolding backoff
backoff_bounds a = ground (arith, pow-suc 2 a, pow_pos a)

-- A retry is due exactly while fewer attempts were made than a positive `max_retries` allows.
pub should_retry_iff : (n : ℕ) (m : ℤ) → (should_retry n m ≡ true) ↔ (n < pos_part m)
unfolding should_retry
should_retry_iff n m = ground arith

pub should_retry_over : (n : ℕ) (m : ℤ) → pos_part m ≤ n → should_retry n m ≡ false
unfolding should_retry
should_retry_over n m h = ground arith
