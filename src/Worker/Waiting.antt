-- ===== src/Worker/Waiting.antt =====
-- The loop of the rate limit check, on fuel: when it is enough.
use event_driven_notificatio.Prelude.{
  ℕ, zero, suc, ◌+◌, ◌≤◌, ◌<◌, leb, ◌≡◌, ◌≢◌, refl, Bool, true, false, Bool-cases, inl, inr, Option,
  none, some, List, [], ◌∷◌, Result, ok, err, arith,
}
use event_driven_notificatio.Prelude.Text.{Str}
use event_driven_notificatio.Domain.{Error}
use event_driven_notificatio.Services.{Services, W, Action, redis_do, now, draw, is_done}
use event_driven_notificatio.Queue.Consumer.{Message}
use event_driven_notificatio.Ratelimit.{Limiter, allow}
use event_driven_notificatio.Worker.Dispatcher.{
  Dispatcher, Progress, finished, stopped, waiting, or_stop, on_allowed, wait_for_slot, on_slot,
  on_parsed, process_message, go_on, process_all,
}

module _ (env : Services) where
  allow-step :
      (limiter : Limiter) (channel : Str) (w : W env)
      → (allow env limiter channel w).1.step ≡ suc (suc (suc w.step))
  unfolding allow now draw redis_do
  allow-step limiter channel w = ground arith

  module _ (d : Dispatcher) (last : ℕ) (done : (k : ℕ) → last ≤ k → env.cancelled k ≡ true) where
    or_stop-ends :
        (next : Action env Progress) (b : Bool) (w : W env)
        → (b ≡ false → (next w).0 ≢ waiting)
        → (or_stop env d next b w).0 ≢ waiting
    unfolding or_stop
    or_stop-ends next true w h = λ e. cc
    or_stop-ends next false w h = h refl

    on_allowed-ends :
        (next : Action env Progress) (r : Result Error Bool) (w : W env)
        → (env.cancelled w.step ≡ false → (next (is_done env w).1).0 ≢ waiting)
        → (on_allowed env d next r w).0 ≢ waiting
    unfolding on_allowed is_done
    on_allowed-ends next (err e) w h = λ e. cc
    on_allowed-ends next (ok true) w h = λ e. cc
    on_allowed-ends next (ok false) w h = or_stop-ends next (env.cancelled w.step) _ h

    not_yet : (k : ℕ) → env.cancelled k ≡ false → k < last
    not_yet k on = elim (Bool-cases (leb last k)) [
      | inl past ↦ absurd (let over = done k (ground arith) in cc)
      | inr before ↦ ground arith
    ]

    wait_for_slot-ends :
        (fuel : ℕ) (channel : Str) (w : W env)
        → 1 ≤ fuel
        → last < w.step + fuel
        → (wait_for_slot env d fuel channel w).0 ≢ waiting
    unfolding wait_for_slot is_done
    wait_for_slot-ends zero channel w some_fuel enough = absurd (omega arith)
    wait_for_slot-ends (suc fuel) channel w some_fuel enough =
        let (r, w1) = allow env d.limiter channel w in
        let steps = allow-step d.limiter channel w in
        on_allowed-ends (wait_for_slot env d fuel channel) r w1 (λ on.
          let early = not_yet w1.step on in
          wait_for_slot-ends fuel channel (is_done env w1).1 (omega (arith, steps, early))
            (omega (arith, steps)))

    on_slot-ends :
        (msg : Message) (id : ℕ) (p : Progress) (w : W env)
        → p ≢ waiting
        → (on_slot env d msg id p w).0 ≢ waiting
    unfolding on_slot
    on_slot-ends msg id finished w h = λ e. cc
    on_slot-ends msg id stopped w h = λ e. cc
    on_slot-ends msg id waiting w h = λ e. h refl

    module _ (fuel : ℕ) (enough : last < fuel) where
      on_parsed-ends :
          (msg : Message) (o : Option ℕ) (w : W env) → (on_parsed env d fuel msg o w).0 ≢ waiting
      unfolding on_parsed
      on_parsed-ends msg none w = λ e. cc
      on_parsed-ends msg (some id) w =
          let (slot, w1) = wait_for_slot env d fuel msg.channel w in
          on_slot-ends msg id slot w1
            (wait_for_slot-ends fuel msg.channel w (omega (arith, enough)) (omega (arith, enough)))

      go_on-ends :
          (next : Action env Progress) (p : Progress) (w : W env)
          → p ≢ waiting
          → (next w).0 ≢ waiting
          → (go_on env d next p w).0 ≢ waiting
      unfolding go_on
      go_on-ends next finished w h later = later
      go_on-ends next stopped w h later = later
      go_on-ends next waiting w h later = absurd (h refl)

      -- Where the context is done from some call on, fuel above the number of that call is enough for
      -- every sequence of messages: none is left waiting for the rate limiter, whichever calls fail.
      pub process_all-ends :
          (msgs : List Message) (w : W env) → (process_all env d fuel msgs w).0 ≢ waiting
      unfolding process_all process_message
      process_all-ends [] w = λ e. cc
      process_all-ends (msg ∷ msgs) w =
          let (p, w1) = process_message env d fuel msg w in
          go_on-ends (process_all env d fuel msgs) p w1
            (on_parsed-ends msg (env.uuid_parse msg.notification_id) w) (process_all-ends msgs w1)
