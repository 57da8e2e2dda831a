-- ===== src/Service/Batches.antt =====
-- CreateBatch of internal/service/notification.go.
use event_driven_notificatio.Prelude.{
  ℕ, ltb, length, not, if◌then◌else◌, Option, none, some, List, [], ◌∷◌, Result, ok, err,
}
use event_driven_notificatio.Prelude.State.{pure, ◌>>=◌}
use event_driven_notificatio.Domain.{
  Error, validation, batch_too_large, invalid_channel, invalid_priority, Notification,
  CreateNotificationRequest, BatchCreateRequest, channel_valid, priority_valid,
}
use event_driven_notificatio.Services.{Services, Action, next_uuid}
use event_driven_notificatio.Repository.Batch.{create_batch}
use event_driven_notificatio.Validator.{validate_notification_content}
use event_driven_notificatio.Service.Notifications.{
  NotificationService, to_notification, apply_template, enqueue_created,
}

-- lines 147 to 162 and 184 to 189
unfoldable pub to_member : NotificationService → ℕ → CreateNotificationRequest → Notification
unfolding to_notification
to_member s batch_id req = record (to_notification s req) { batch_id = some batch_id }

abbrev pub Prepared : Type 0
Prepared = Result Error (List Notification)

abbrev pub and_prepared : Notification → Prepared → Prepared
and_prepared n (ok ns) = ok (n ∷ ns)
and_prepared n (err e) = err e

module _ (env : Services) where
  abbrev pub accept_if : Notification → Option Error → Result Error Notification
  accept_if n none = ok n
  accept_if n (some e) = err e

  -- `ValidateNotificationContent` on what the template left
  unfoldable pub accept : Result Error Notification → Result Error Notification
  accept (err e) = err e
  accept (ok n) =
      accept_if n (validate_notification_content env n.channel n.recipient n.subject n.body)

  -- lines 140 to 191 for one request; the error does not say its index
  unfoldable pub prepare :
      NotificationService → ℕ → CreateNotificationRequest → Action env (Result Error Notification)
  unfolding accept
  prepare s batch_id req =
      if not (channel_valid req.channel)
      then pure (err invalid_channel)
      else if not (priority_valid req.priority)
      then pure (err invalid_priority)
      else (do n ← apply_template env req.template_id (to_member s batch_id req); pure (accept n))

  unfoldable pub and_prepare : Action env Prepared → Result Error Notification → Action env Prepared
  and_prepare next (err e) = pure (err e)
  and_prepare next (ok n) = do rest ← next; pure (and_prepared n rest)

  -- The loop, whose first error ends it.
  unfoldable pub prepare_all :
      NotificationService → ℕ → List CreateNotificationRequest → Action env Prepared
  unfolding and_prepare
  prepare_all s batch_id [] = pure (ok [])
  prepare_all s batch_id (req ∷ reqs) = do
    n ← prepare s batch_id req
    and_prepare (prepare_all s batch_id reqs) n

  -- lines 201 to 215
  unfoldable pub enqueue_batch :
      NotificationService → List Notification → Action env (List Notification)
  enqueue_batch s [] = pure []
  enqueue_batch s (n ∷ ns) = do
    n' ← enqueue_created env s n
    ns' ← enqueue_batch s ns
    pure (n' ∷ ns')

  unfoldable pub finish_batch : NotificationService → Prepared → Action env Prepared
  unfolding enqueue_batch
  finish_batch s (err e) = pure (err e)
  finish_batch s (ok ns) = do ns' ← enqueue_batch s ns; pure (ok ns')

  unfoldable pub store_batch : NotificationService → Prepared → Action env Prepared
  unfolding finish_batch
  store_batch s (err e) = pure (err e)
  store_batch s (ok ns) = do r ← create_batch env ns; finish_batch s r

  unfoldable pub run_batch :
      NotificationService → List CreateNotificationRequest → Action env Prepared
  unfolding prepare_all store_batch
  run_batch s reqs = do
    batch_id ← next_uuid env
    prepared ← prepare_all s batch_id reqs
    store_batch s prepared

  -- `CreateBatch`
  unfoldable pub create_all : NotificationService → BatchCreateRequest → Action env Prepared
  unfolding run_batch
  create_all s req =
      if not (env.valid_batch req)
      then pure (err validation)
      else if ltb 1000 (length req.notifications)
      then pure (err batch_too_large)
      else run_batch s req.notifications
