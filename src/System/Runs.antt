-- ===== src/System/Runs.antt =====
-- A run of the process: its requests, workers and tickers interleave operation by operation.
use event_driven_notificatio.Service
use event_driven_notificatio.Service.Notifications.{NotificationService}
use event_driven_notificatio.Domain.{
  CreateNotificationRequest, BatchCreateRequest, CreateTemplateRequest, UpdateTemplateRequest,
}
use event_driven_notificatio.Prelude.{ℕ, List, [], ◌∷◌}
use event_driven_notificatio.Prelude.Text.{Str}
use event_driven_notificatio.Domain.{Notification, Status}
use event_driven_notificatio.Services.{Services, W}
use event_driven_notificatio.Repository.Notifications.{create, update_status, cancel}
use event_driven_notificatio.Repository.Templates.{delete_template}
use event_driven_notificatio.Service.Batches.{create_all}
use event_driven_notificatio.Queue.Consumer.{Message}
use event_driven_notificatio.Worker.Dispatcher.{Dispatcher, handle, process_delayed_batch}
use event_driven_notificatio.Worker.Scheduler.{poll}

-- What the parts of the process do: the services serve requests for a notification, a batch and the
-- templates, and cancel; a worker handles a message; the tickers poll and re-enqueue. The program has
-- `creates` and `marks` only as pieces of its Create: the statement that inserts, and the status update
-- after the notification was enqueued. They stand here on their own so that a run can have other
-- operations between them.
pub data Operation : Type 0 where
  serves : NotificationService → CreateNotificationRequest → Operation
  batches : NotificationService → BatchCreateRequest → Operation
  adds_template : CreateTemplateRequest → Operation
  edits_template : ℕ → UpdateTemplateRequest → Operation
  drops_template : ℕ → Operation
  creates : Notification → Operation
  marks : ℕ → Status → Str → Operation
  cancels : ℕ → Operation
  handles : Dispatcher → Message → ℕ → Operation
  polls : ℕ → Operation
  re_enqueues : Operation

module _ (env : Services) where
  unfoldable pub operate : Operation → W env → W env
  operate (serves s req) w = (Service.Notifications.create env s req w).1
  operate (batches s req) w = (create_all env s req w).1
  operate (adds_template req) w = (Service.Templates.create env req w).1
  operate (edits_template id req) w = (Service.Templates.update env id req w).1
  operate (drops_template id) w = (delete_template env id w).1
  operate (creates n) w = (create env n w).1
  operate (marks id s e) w = (update_status env id s e w).1
  operate (cancels id) w = (cancel env id w).1
  operate (handles d msg id) w = (handle env d msg id w).1
  operate (polls size) w = (poll env size w).1
  operate re_enqueues w = (process_delayed_batch env w).1

  unfoldable pub run : List Operation → W env → W env
  run [] w = w
  run (o ∷ os) w = run os (operate o w)
