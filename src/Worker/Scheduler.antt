-- ===== src/Worker/Scheduler.antt =====
-- internal/worker/scheduler.go
use event_driven_notificatio.Prelude.{List, Result, ℕ, zero, suc, true, false, ok, err}
use event_driven_notificatio.Prelude.State.{pure, ◌>>=◌, ◌>>◌, each}
use event_driven_notificatio.Domain.{Error, Notification}
use event_driven_notificatio.Services.{Services, Action, is_done}
use event_driven_notificatio.Repository.Notifications.{fetch_scheduled_due}
use event_driven_notificatio.Queue.Producer.{enqueue}

module _ (env : Services) where
  unfoldable pub enqueue_scheduled : Notification → Action env (Unit {0})
  enqueue_scheduled n = do enqueue env n.id n.channel n.priority; pure tt

  -- After an error nothing is enqueued; an empty list needs no case of its own.
  unfoldable pub enqueue_all : Result Error (List Notification) → Action env (Unit {0})
  enqueue_all (err e) = pure tt
  enqueue_all (ok notifications) = each enqueue_scheduled notifications

  unfoldable pub poll : ℕ → Action env (Unit {0})
  unfolding enqueue_all
  poll batch_size = do r ← fetch_scheduled_due env batch_size; enqueue_all r

  -- `Run`, for at most so many turns of its loop; a turn ends with the context or with a tick.
  unfoldable pub run_scheduler : ℕ → ℕ → Action env (Unit {0})
  run_scheduler batch_size zero = pure tt
  run_scheduler batch_size (suc turns) = do
    stopped ← is_done env
    elim stopped [ true ↦ pure tt | false ↦ poll batch_size >> run_scheduler batch_size turns ]
