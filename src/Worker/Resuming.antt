-- ===== src/Worker/Resuming.antt =====
-- A tick of processDelayedBatch, for a notification whose time has come.
use event_driven_notificatio.Prelude.{
  ℕ, suc, ◌≤◌, ◌≡◌, refl, ap, sym, ◌∙◌, subst, true, false, leb, List, [], ◌∷◌, Memᴰ, any, select,
  length, ok,
}
use event_driven_notificatio.Prelude.Text.{Str, same, same_refl}
use event_driven_notificatio.Prelude.State.{each}
use event_driven_notificatio.Domain.{Channel, Priority, stream_key, channel_valid, priority_valid}
use event_driven_notificatio.Services.{Services, W, answered, now}
use event_driven_notificatio.Services.Laws.{StreamLaws, ZsetLaws, DelayedLaws, UuidLaws}
use event_driven_notificatio.Services.Effects.{redis_do-answered}
use event_driven_notificatio.Queue.Producer.{
  delayed_key, entry, member, remove_popped, remove_due, pop_delayed_due,
}
use event_driven_notificatio.Worker.Dispatcher.{
  unix_milli, re_enqueue, re_enqueue_all, process_delayed_batch,
}
use event_driven_notificatio.Worker.Retrying.{re_enqueue-member}
use event_driven_notificatio.Worker.Delayed.{enqueue-Mem, each-Grows, removed_lem}

module _ (env : Services) (steady : (k : ℕ) → env.fault k ≡ answered) (streams : StreamLaws env)
    (zsets : ZsetLaws env) (laws : DelayedLaws env streams zsets) (uuids : UuidLaws env) where
  abbrev IsQueued : ℕ → Channel → Priority → W env → Type 0
  IsQueued id c p w = Memᴰ (entry env id c) (streams.stream w.redis (stream_key p))

  each-IsQueued :
      (id : ℕ) (c : Channel) (p : Priority) (ms : List Str) (w : W env)
      → channel_valid c ≡ true
      → priority_valid p ≡ true
      → Memᴰ (member env id c p) ms
      → IsQueued id c p (each (re_enqueue env) ms w).1
  unfolding each
  each-IsQueued id c p [] w c_valid p_valid h = elim h [ ]
  each-IsQueued id c p (m ∷ ms) w c_valid p_valid (Memᴰ.head e) =
      let w1 = (re_enqueue env m w).1 in
      let first : IsQueued id c p w1 =
        subst (λ x. IsQueued id c p (re_enqueue env x w).1) e
          (subst (IsQueued id c p) (sym (re_enqueue-member env uuids id c p w c_valid p_valid))
            (enqueue-Mem env steady streams zsets id c p w)) in
      (each-Grows env steady streams zsets ms w1).kept (entry env id c) (stream_key p) first
  each-IsQueued id c p (m ∷ ms) w c_valid p_valid (Memᴰ.tail h) =
      each-IsQueued id c p ms (re_enqueue env m w).1 c_valid p_valid h

  -- What is popped is no longer in the delayed set.
  popped :
      (due : List Str) (w : W env) (m : Str)
      → Memᴰ m due
      → let (r, w') = remove_due env (ok due) w in
        (r ≡ ok due) × (any (λ p. same p.0 m) (zsets.zset w'.redis delayed_key) ≡ false)
  unfolding remove_due remove_popped
  popped [] w m h = elim h [ ]
  popped (x ∷ due) w m h =
      let removed =
        redis_do-answered env (λ r. (tt, env.zrem delayed_key (x ∷ due) r)) w (steady w.step) in
      (
        refl,
        ap (λ y. any (λ p. same p.0 m) (zsets.zset y.1.redis delayed_key)) removed
            ∙ ap (any (λ p. same p.0 m)) (laws.zset-zrem delayed_key (x ∷ due) w.redis delayed_key)
            ∙ rw (same_refl delayed_key)
                (removed_lem m (x ∷ due) (zsets.zset w.redis delayed_key) h),
      )

  -- Where the calls are answered, and at most 50 members of the delayed set are due, a notification of
  -- a valid channel and priority that is in the delayed set with a time that has come has, after one
  -- tick, its entry in the stream of its priority, and is no longer in the delayed set.
  pub process_delayed_batch-resumes :
      (id : ℕ) (c : Channel) (p : Priority) (score : ℕ) (w : W env)
      → channel_valid c ≡ true
      → priority_valid p ≡ true
      → Memᴰ (member env id c p, score) (zsets.zset w.redis delayed_key)
      → score ≤ unix_milli (env.clock w.step)
      → length
          (select (λ q. leb q.1 (unix_milli (env.clock w.step))) (zsets.zset w.redis delayed_key))
        ≤ 50
      → let w' = (process_delayed_batch env w).1 in
        IsQueued id c p w'
        × (any (λ q. same q.0 (member env id c p)) (zsets.zset w'.redis delayed_key) ≡ false)
  unfolding process_delayed_batch re_enqueue_all pop_delayed_due now
  process_delayed_batch-resumes id c p score w c_valid p_valid waits come few =
      let t = unix_milli (env.clock w.step) in
      let w1 = (now env w).1 in
      let due = env.zrange_by_score delayed_key t 50 w.redis in
      let listed =
        laws.due_listed delayed_key t 50 w.redis (member env id c p) score few waits come in
      let ranged =
        redis_do-answered env (λ r. (env.zrange_by_score delayed_key t 50 r, r)) w1
          (steady w1.step) in
      let w2 : W env = record w1 { step = suc w1.step } in
      let (told, gone) = popped due w2 (member env id c p) listed in
      let w3 = (remove_due env (ok due) w2).1 in
      let last = (each (re_enqueue env) due w3).1 in
      let whole : (process_delayed_batch env w).1 ≡ last = rw ranged (rw told refl) in
      subst
        (λ v.
          IsQueued id c p v
          × (any (λ q. same q.0 (member env id c p)) (zsets.zset v.redis delayed_key) ≡ false))
        (sym whole)
        (
          each-IsQueued id c p due w3 c_valid p_valid listed,
          ap (any (λ q. same q.0 (member env id c p)))
                (each-Grows env steady streams zsets due w3).delayed
              ∙ gone,
        )
