-- ===== src/System/Keeping.antt =====
-- What every statement keeps, runs of the process keep.
use event_driven_notificatio.Service.Keeping.{served-keeps, batch-keeps}
use event_driven_notificatio.Service.Editing.{added-keeps, edited-keeps}
use event_driven_notificatio.Repository.Inserting.{Inserts}
use event_driven_notificatio.System.Quiet.{
  retry-db, now-db, metric-db, enqueue_all-db, process_delayed_batch-db,
}
use event_driven_notificatio.Prelude.{ℕ, ap, sym, subst, List, [], ◌∷◌}
use event_driven_notificatio.Domain.{Notification, queued}
use event_driven_notificatio.Services.{Database, Services, W}
use event_driven_notificatio.Repository.Keeping.{
  IsKept, create-keeps, update_status-keeps, increment_attempt-keeps, create_delivery_attempt-keeps,
  fetch_scheduled_due-keeps, cancel-keeps, delete_template-keeps,
}
use event_driven_notificatio.Repository.Reading.{get_by_id-world}
use event_driven_notificatio.Repository.Notifications.{fetch_scheduled_due, update_status}
use event_driven_notificatio.Queue.Consumer.{Message}
use event_driven_notificatio.Websocket.Broadcast.{broadcast-SameButFrames}
use event_driven_notificatio.Worker.Scheduler.{poll}
use event_driven_notificatio.Worker.Footprint.{Allows, handle-moves}
use event_driven_notificatio.Worker.Isolation.{send-db}
use event_driven_notificatio.Worker.Settling.{ack-kept, delay-kept, dead-kept}
use event_driven_notificatio.System.Runs.{
  Operation, serves, batches, adds_template, edits_template, drops_template, creates, marks,
  cancels, handles, polls, re_enqueues, operate, run,
}

module _ (env : Services) (P : Database → Type 0) (kept : IsKept P) where
  abbrev KeepsIt : W env → W env → Type 0
  KeepsIt w w' = P w.db → P w'.db

  KeepsIt-Allows : (msg : Message) (id : ℕ) → Allows env KeepsIt msg id
  KeepsIt-Allows msg id = record {
    quiet = record {
      same = λ w h. h;
      chain = λ a b c p q h. q (p h);
      read = λ w h. subst P (sym ((ap (λ v. v.db) (get_by_id-world env id w)))) h;
      update = λ s e w. update_status-keeps env P kept id s e w;
      increment = λ w. increment_attempt-keeps env P kept id w;
      attempt = λ a w mine. create_delivery_attempt-keeps env P kept a w;
      clock = λ w h. subst P (sym ((now-db env w))) h;
      retry = λ n w h. subst P (sym ((retry-db env n w))) h;
      metric = λ m w h. subst P (sym ((metric-db env m w))) h;
      acked = λ w h. subst P (sym ((ack-kept env msg w).0)) h;
      delay = λ c p t w h. subst P (sym ((delay-kept env id c p t w).0)) h;
      dead = λ c e w h. subst P (sym ((dead-kept env id c e w).0)) h;
      tell = λ s w h. subst P (sym ((broadcast-SameButFrames env id s w).db)) h;
    };
    post = λ p n w h. subst P (sym ((send-db env p n w).0)) h;
  }

  step : Inserts env P (λ n. Unit)
  step n tables h e = (kept.insert _ tables h, tt)

  mark :
      (n : Notification) (w : W env)
      → Unit {0}
      → P w.db
      → P (update_status env n.id queued [] w).1.db
  mark n w u h = update_status-keeps env P kept n.id queued [] w h

  poll-keeps : (size : ℕ) (w : W env) → KeepsIt w (poll env size w).1
  unfolding poll
  poll-keeps size w h =
      let fetched = fetch_scheduled_due env size w in
      subst P (sym (enqueue_all-db env fetched.0 fetched.1))
        (fetch_scheduled_due-keeps env P kept size w h)

  pub operate-keeps : (o : Operation) (w : W env) → KeepsIt w (operate env o w)
  unfolding operate
  operate-keeps (serves s req) w h = served-keeps env P (λ n. Unit) s mark step req w h
  operate-keeps (batches s req) w h = batch-keeps env P (λ n. Unit) s mark step req w h
  operate-keeps (adds_template req) w h = added-keeps env P kept.templates req w h
  operate-keeps (edits_template id req) w h = edited-keeps env P kept.templates id req w h
  operate-keeps (drops_template id) w h = delete_template-keeps env P kept.templates id w h
  operate-keeps (creates n) w h = create-keeps env P kept n w h
  operate-keeps (marks id s e) w h = update_status-keeps env P kept id s e w h
  operate-keeps (cancels id) w h = cancel-keeps env P kept id w h
  operate-keeps (handles d msg id) w h =
      handle-moves env KeepsIt msg id (KeepsIt-Allows msg id) d w h
  operate-keeps (polls size) w h = poll-keeps size w h
  operate-keeps re_enqueues w h = subst P (sym (process_delayed_batch-db env w)) h

  pub run-keeps : (os : List Operation) (w : W env) → P w.db → P (run env os w).db
  unfolding run
  run-keeps [] w h = h
  run-keeps (o ∷ os) w h = run-keeps os (operate env o w) (operate-keeps o w h)
