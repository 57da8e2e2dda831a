-- ===== src/System/Quiet.antt =====
-- What leaves the tables alone: the queue, the ticker for retries, the clocks and the metrics.
use event_driven_notificatio.Prelude.{
  ℕ, ◌≡◌, refl, ◌∙◌, List, [], ◌∷◌, Result, ok, err, Option, some, none,
}
use event_driven_notificatio.Prelude.State.{each}
use event_driven_notificatio.Prelude.Text.{Str}
use event_driven_notificatio.Domain.{Notification, Error}
use event_driven_notificatio.Services.{redis_do, Action, Services, W, Metric, now, count_metric}
use event_driven_notificatio.Services.Effects.{redis_do-SameButRedis}
use event_driven_notificatio.Delivery.Retry.{retry_at}
use event_driven_notificatio.Queue.Producer.{remove_due, remove_popped, enqueue, pop_delayed_due}
use event_driven_notificatio.Worker.Member.{parse_member}
use event_driven_notificatio.Worker.Dispatcher.{
  enqueue_parts, unix_milli, re_enqueue, re_enqueue_all, process_delayed_batch,
}
use event_driven_notificatio.Worker.Scheduler.{enqueue_scheduled, enqueue_all}

module _ (env : Services) where
  pub retry-db : (n : ℕ) (w : W env) → (retry_at env n w).1.db ≡ w.db
  unfolding retry_at now
  retry-db n w = refl

  pub now-db : (w : W env) → (now env w).1.db ≡ w.db
  unfolding now
  now-db w = refl

  pub metric-db : (m : Metric) (w : W env) → (count_metric env m w).1.db ≡ w.db
  unfolding count_metric
  metric-db m w = refl

  pub enqueue-db : (id : ℕ) (c p : Str) (w : W env) → (enqueue env id c p w).1.db ≡ w.db
  unfolding enqueue
  enqueue-db id c p w = (redis_do-SameButRedis env _ w).db

  -- A loop of calls that each leave the tables alone.
  each-db :
      {A : Type 0} (f : A → Action env (Unit {0}))
      → ((a : A) (w : W env) → (f a w).1.db ≡ w.db)
      → (xs : List A) (w : W env) → (each f xs w).1.db ≡ w.db
  unfolding each
  each-db f same [] w = refl
  each-db f same (a ∷ rest) w = each-db f same rest (f a w).1 ∙ same a w

  pub enqueue_all-db :
      (r : Result Error (List Notification)) (w : W env) → (enqueue_all env r w).1.db ≡ w.db
  unfolding enqueue_all enqueue_scheduled
  enqueue_all-db (err e) w = refl
  enqueue_all-db (ok ns) w =
      each-db (enqueue_scheduled env) (λ n v. enqueue-db n.id n.channel n.priority v) ns w

  enqueue_parts-db :
      (parts : Option (List Str)) (w : W env) → (enqueue_parts env parts w).1.db ≡ w.db
  unfolding enqueue_parts
  enqueue_parts-db none w = refl
  enqueue_parts-db (some []) w = refl
  enqueue_parts-db (some (id ∷ [])) w = refl
  enqueue_parts-db (some (id ∷ channel ∷ [])) w = refl
  enqueue_parts-db (some (id ∷ channel ∷ priority ∷ [])) w =
      enqueue-db (env.uuid_value id) channel priority w
  enqueue_parts-db (some (id ∷ channel ∷ priority ∷ more ∷ rest)) w = refl

  re_enqueue-db : (m : Str) (w : W env) → (re_enqueue env m w).1.db ≡ w.db
  unfolding re_enqueue
  re_enqueue-db m w = enqueue_parts-db (parse_member m) w

  re_enqueue_all-db :
      (r : Result Error (List Str)) (w : W env) → (re_enqueue_all env r w).1.db ≡ w.db
  unfolding re_enqueue_all
  re_enqueue_all-db (err e) w = refl
  re_enqueue_all-db (ok ms) w = each-db (re_enqueue env) re_enqueue-db ms w

  remove_popped-db : (ms : List Str) (w : W env) → (remove_popped env ms w).1.db ≡ w.db
  unfolding remove_popped
  remove_popped-db [] w = refl
  remove_popped-db (m ∷ ms) w = (redis_do-SameButRedis env _ w).db

  remove_due-db : (r : Result Error (List Str)) (w : W env) → (remove_due env r w).1.db ≡ w.db
  unfolding remove_due
  remove_due-db (err e) w = refl
  remove_due-db (ok ms) w = remove_popped-db ms w

  pop_delayed_due-db : (t count : ℕ) (w : W env) → (pop_delayed_due env t count w).1.db ≡ w.db
  unfolding pop_delayed_due
  pop_delayed_due-db t count w =
      remove_due-db (redis_do env _ w).0 (redis_do env _ w).1 ∙ (redis_do-SameButRedis env _ w).db

  pub process_delayed_batch-db : (w : W env) → (process_delayed_batch env w).1.db ≡ w.db
  unfolding process_delayed_batch
  process_delayed_batch-db w =
      let w1 = (now env w).1 in
      let popped = pop_delayed_due env (unix_milli (now env w).0) 50 w1 in
      re_enqueue_all-db popped.0 popped.1 ∙ pop_delayed_due-db _ 50 w1 ∙ now-db w
