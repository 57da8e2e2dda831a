-- ===== src/Ratelimit/Repeats.antt =====
-- Calls of the script in one millisecond that draw the same number make the same member. Redis seeds
-- `math.random` alike before every run of a script, so this is what every two calls of one
-- millisecond do.
use event_driven_notificatio.Prelude.{
  ◌⊎◌, ℕ, zero, suc, ◌<◌, ltb, ◌≡◌, refl, ap, ◌∙◌, true, inl, inr, List, [], ◌∷◌, length, select,
  arith,
}
use event_driven_notificatio.Prelude.Text.{Str, same_refl}
use event_driven_notificatio.Services.{Services}
use event_driven_notificatio.Services.Laws.{ZsetLaws, WindowLaws, set_score}
use event_driven_notificatio.Ratelimit.{drop_expired, sliding_window}
use event_driven_notificatio.Ratelimit.Window.{Call, entry_of, admit}
use event_driven_notificatio.Ratelimit.Bound.{after_drop, self_in}

abbrev pub repeated : ℕ → Call → List Call
repeated zero c = []
repeated (suc n) c = c ∷ repeated n c

set_score-own : (m : Str) (t : ℕ) → set_score m t ((m, t) ∷ []) ≡ (m, t) ∷ []
unfolding set_score
set_score-own m t = rw (same_refl m) refl

module _ (env : Services) (zsets : ZsetLaws env) (laws : WindowLaws env zsets) (key : Str)
    (window max_requests : ℕ) (some_time : 0 < window) (not_alone : 1 < max_requests) where
  -- No entry, or the one entry of the call.
  abbrev HasAtMost : Call → env.Redis → Type 0
  HasAtMost c r = (zsets.zset r key ≡ []) ⊎ (zsets.zset r key ≡ entry_of c ∷ [])

  dropped_none :
      (c : Call) (r : env.Redis) → HasAtMost c r → HasAtMost c (drop_expired env key window c.0 r)
  unfolding select
  dropped_none c r (inl e) =
      inl (after_drop env zsets laws key window max_requests some_time c.0 r ∙ rw e refl)
  dropped_none c r (inr e) = inr (
      after_drop env zsets laws key window max_requests some_time c.0 r
      ∙ rw e (self_in env zsets laws key window max_requests some_time c))

  set_own :
      (c : Call) (r : env.Redis)
      → HasAtMost c r
      → set_score (entry_of c).0 c.0 (zsets.zset r key) ≡ entry_of c ∷ []
  unfolding set_score
  set_own c r (inl e) = rw e refl
  set_own c r (inr e) = rw e (set_score-own (entry_of c).0 c.0)

  counted : (c : Call) (r : env.Redis) → HasAtMost c r → env.zcard key r < max_requests
  counted c r (inl e) = let n = laws.zcard_lem key r ∙ ap length e in omega (arith, n)
  counted c r (inr e) = let n = laws.zcard_lem key r ∙ ap length e in omega (arith, n)

  admitted_again :
      (c : Call) (r : env.Redis)
      → HasAtMost c r
      → let (answer, r') = sliding_window env key window max_requests c.0 c.1 r in
        (answer ≡ 1) × (zsets.zset r' key ≡ entry_of c ∷ [])
  unfolding sliding_window
  admitted_again c r h =
      let r1 = drop_expired env key window c.0 r in
      let few = dropped_none c r h in
      let room : ltb (env.zcard key r1) max_requests ≡ true =
        let n = counted c r1 few in ground arith in
      let added : zsets.zset (env.zadd key c.0 (entry_of c).0 r1) key ≡ entry_of c ∷ [] =
        zsets.zset-zadd key c.0 (entry_of c).0 r1 key ∙ rw (same_refl key) (set_own c r1 few) in
      rw room (refl, laws.zset-pexpire key window (env.zadd key c.0 (entry_of c).0 r1) key ∙ added)

  admitted_all :
      (n : ℕ) (c : Call) (r : env.Redis)
      → HasAtMost c r
      → length (admit env key window max_requests (repeated n c) r) ≡ n
  unfolding admit
  admitted_all zero c r h = refl
  admitted_all (suc n) c r h =
      let (yes_one, held) = admitted_again c r h in
      rw yes_one (ap suc (admitted_all n c _ (inr held)))

  -- When `max_requests` is at least 2 and the window is not 0, however many calls of the script for
  -- one key, whose set is empty at first, come with the same time and the same number drawn, every
  -- one of them is admitted.
  pub repeated_admitted :
      (n : ℕ) (c : Call) (r : env.Redis)
      → zsets.zset r key ≡ []
      → length (admit env key window max_requests (repeated n c) r) ≡ n
  repeated_admitted n c r empty = admitted_all n c r (inl empty)
