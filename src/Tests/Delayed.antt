-- ===== src/Tests/Delayed.antt =====
-- The theorem about the delayed set, at one concrete input.
use event_driven_notificatio.Prelude.{
  Bool, ◌≡◌, ◌≤◌, refl, sym, ap, subst, ℕ, leb, any, select, length, take_all, List, [], ◌∷◌, Memᴰ,
  false, arith, Bool-cases, inl, inr,
}
use event_driven_notificatio.Prelude.Text.{Str, str, same}
use event_driven_notificatio.Domain.{
  channel_sms, priority_high, stream_key, channel_valid, priority_valid,
}
use event_driven_notificatio.Services.{Fault, answered, HttpOutcome, response, World}
use event_driven_notificatio.Services.Laws.{DelayedLaws}
use event_driven_notificatio.Queue.Producer.{entry, delayed_key, member}
use event_driven_notificatio.Worker.Dispatcher.{process_delayed_batch}
use event_driven_notificatio.Worker.Resuming.{process_delayed_batch-resumes}
use event_driven_notificatio.Tests.Environment.{
  Memory, steady, environment, due_members, zset_of, environment-StreamLaws, environment-ZsetLaws,
  environment-UuidLaws,
}

length-due_members :
    (t : ℕ) (z : List (Str × ℕ)) → length (due_members t z) ≡ length (select (λ p. leb p.1 t) z)
unfolding select
length-due_members t [] = refl
length-due_members t ((m, score) ∷ z) = ground (arith, length-due_members t z)

due_members-Mem :
    (t : ℕ) (m : Str) (score : ℕ) (z : List (Str × ℕ))
    → Memᴰ (m, score) z
    → score ≤ t
    → Memᴰ m (due_members t z)
due_members-Mem t m score [] h come = elim h [ ]
due_members-Mem t m score ((m', score') ∷ z) (Memᴰ.head e) come =
    let same_score = ap (λ p. p.1) e in
    let due : leb score' t ≡ Bool.true = ground arith in rw due (Memᴰ.head (ap (λ p. p.0) e))
due_members-Mem t m score ((m', score') ∷ z) (Memᴰ.tail h) come =
    let later = due_members-Mem t m score z h come in
    elim (Bool-cases (leb score' t)) [
      | inl due ↦ rw due (Memᴰ.tail later)
      | inr early ↦ rw early later
    ]

module _ (faults : ℕ → Fault) (outcome : HttpOutcome) where
  abbrev environment-DelayedLaws :
      DelayedLaws
        (environment faults outcome)
        (environment-StreamLaws faults outcome)
        (environment-ZsetLaws faults outcome)
  environment-DelayedLaws = record {
    stream-zrem = λ key ms r k. refl;
    zset-zrem = λ key ms r k. refl;
    due_listed = λ key t count r m score few waits come.
        subst (Memᴰ m)
          (sym (
            take_all count (due_members t (zset_of key r.zsets))
              (subst (λ n. n ≤ count) (sym (length-due_members t (zset_of key r.zsets))) few)))
          (due_members-Mem t m score (zset_of key r.zsets) waits come);
  }

abbrev retrying : World Memory
retrying = record {
  db = record { notifications = []; attempts = []; templates = [] };
  redis = record {
    streams = [];
    zsets = (delayed_key, (member steady 7 channel_sms priority_high, 1000) ∷ []) ∷ [];
    acks = [];
    groups = [];
  };
  subscribers = [];
  frames = [];
  metrics = [];
  requests = [];
  step = 0;
}

process_delayed_batch-resumes_example :
    let w = (process_delayed_batch steady retrying).1 in
    Memᴰ ((str "notification_id", str "1111111") ∷ (str "channel", channel_sms) ∷ []) (
      (environment-StreamLaws (λ n. answered) (response 202 (str "ok"))).stream w.redis
        (stream_key priority_high))
    × (any
          (λ q. same q.0 (member steady 7 channel_sms priority_high))
          (zset_of delayed_key w.redis.zsets)
        ≡ false)
unfolding same select entry channel_valid priority_valid
process_delayed_batch-resumes_example =
    process_delayed_batch-resumes steady (λ k. refl)
      (environment-StreamLaws (λ n. answered) (response 202 (str "ok")))
      (environment-ZsetLaws (λ n. answered) (response 202 (str "ok")))
      (environment-DelayedLaws (λ n. answered) (response 202 (str "ok")))
      (environment-UuidLaws (λ n. answered) (response 202 (str "ok"))) 7 channel_sms priority_high
      1000 retrying refl refl (Memᴰ.head refl) (omega arith) (omega arith)
