-- ===== src/Tests/Windows.antt =====
-- The theorems about the rate limiter, each at one concrete input.
use event_driven_notificatio.Prelude.{◌≡◌, ◌≤◌, refl, List, [], ◌∷◌, arith, length, select, any}
use event_driven_notificatio.Prelude.Text.{str, same, decimal}
use event_driven_notificatio.Services.Laws.{set_score}
use event_driven_notificatio.Services.{answered, response}
use event_driven_notificatio.Ratelimit.{window_member, sliding_window, drop_expired}
use event_driven_notificatio.Ratelimit.Window.{Call, admit, in_window}
use event_driven_notificatio.Ratelimit.Bound.{admit_bound}
use event_driven_notificatio.Ratelimit.Repeats.{repeated, repeated_admitted}
use event_driven_notificatio.Tests.Environment.{
  empty_memory, steady, environment-ZsetLaws, environment-WindowLaws,
}

-- Three calls in one window of a second that takes two, and a fourth after it.
abbrev calls : List Call
calls = (5000, 17) ∷ (5000, 4) ∷ (5400, 99) ∷ (6100, 3) ∷ []

calls_admitted : length (admit steady (str "ratelimit:sms") 1000 2 calls empty_memory) ≡ 3
unfolding admit sliding_window drop_expired window_member decimal set_score select any same
calls_admitted = refl

admit_bound_example :
    length (
      select (in_window 1000 5400) (
        admit steady
          (str "ratelimit:sms")
          1000
          2
          ((5000, 17) ∷ (5000, 4) ∷ (5400, 99) ∷ [])
          empty_memory))
    ≤ 2
unfolding window_member decimal same
admit_bound_example =
    admit_bound steady (environment-ZsetLaws (λ n. answered) (response 202 (str "ok")))
      (environment-WindowLaws (λ n. answered) (response 202 (str "ok"))) (str "ratelimit:sms") 1000
      2 (omega arith) 5400 ((5000, 17) ∷ (5000, 4) ∷ (5400, 99) ∷ []) empty_memory refl
      (omega arith, (omega arith, (omega arith, tt))) ((refl, (refl, tt)), ((refl, tt), (tt, tt)))
      (omega arith, (omega arith, (omega arith, tt)))

repeated_admitted_example :
    length (admit steady (str "ratelimit:sms") 1000 2 (repeated 5 (5000, 17)) empty_memory) ≡ 5
repeated_admitted_example =
    repeated_admitted steady (environment-ZsetLaws (λ n. answered) (response 202 (str "ok")))
      (environment-WindowLaws (λ n. answered) (response 202 (str "ok"))) (str "ratelimit:sms") 1000
      2 (omega arith) (omega arith) 5 (5000, 17) empty_memory refl
