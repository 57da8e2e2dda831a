-- ===== src/System/Ended.antt =====
-- Runs of the process, for one notification that is over.
use event_driven_notificatio.Prelude.{◌≡◌, sym, subst, List, [], ◌∷◌, some, All, find, ◌≢◌}
use event_driven_notificatio.Domain.{Notification, queued}
use event_driven_notificatio.Services.{Services, Row, AttemptRow, W}
use event_driven_notificatio.Repository.Sql.{has_id}
use event_driven_notificatio.Repository.Integrity.{IsSound, IsSound-IsKept}
use event_driven_notificatio.Repository.Keeping.{
  IsKeptByTemplates, rows-IsKeptByTemplates, delete_template-keeps,
}
use event_driven_notificatio.Repository.Inserting.{Inserts}
use event_driven_notificatio.Service.Keeping.{create-keeps, served-keeps, batch-keeps}
use event_driven_notificatio.Service.Editing.{added-keeps, edited-keeps}
use event_driven_notificatio.Repository.Notifications
use event_driven_notificatio.Worker.Scheduler.{poll}
use event_driven_notificatio.Worker.Finality.{IsOver}
use event_driven_notificatio.System.Runs.{
  Operation, serves, batches, adds_template, edits_template, drops_template, creates, marks,
  cancels, handles, polls, re_enqueues, operate, run,
}
use event_driven_notificatio.System.Quiet.{enqueue_all-db, process_delayed_batch-db}
use event_driven_notificatio.System.Keeping.{operate-keeps}
use event_driven_notificatio.System.Finality.{
  History, attempts_of, insert-kept, inserted-fresh, update_status-kept, cancelled-kept,
  fetched-kept, handled-kept,
}

module _ (env : Services) (row : Row) (log : List AttemptRow) (over : IsOver row.status) where
  abbrev Kept : W env → Type 0
  Kept w = History row log w.db

  stored_elsewhere : Inserts env (History row log) (λ n. n.id ≢ row.id)
  stored_elsewhere n tables h e =
      (insert-kept row log over _ tables h, inserted-fresh row log over env n tables h e)

  marked_elsewhere :
      (n : Notification) (w : W env)
      → n.id ≢ row.id
      → Kept w
      → Kept (Notifications.update_status env n.id queued [] w).1
  marked_elsewhere n w other h = update_status-kept row log over env n.id queued [] w other h

  edits : IsKeptByTemplates (History row log)
  edits = rows-IsKeptByTemplates (λ rows attempts.
      (find (has_id row.id) rows ≡ some row) × (attempts_of row.id attempts ≡ log))

  -- Any operation but a status update of this notification on its own, which is a piece of Create.
  abbrev pub IsWhole : Operation → Type 0
  IsWhole (marks id s e) = id ≢ row.id
  IsWhole _ = Unit

  operate-Kept :
      (o : Operation) (w : W env) → IsWhole o → IsSound w.db → Kept w → Kept (operate env o w)
  unfolding operate poll
  operate-Kept (serves s req) w whole valid h =
      served-keeps env (History row log) (λ n. n.id ≢ row.id) s marked_elsewhere stored_elsewhere
        req w h
  operate-Kept (batches s req) w whole valid h =
      batch-keeps env (History row log) (λ n. n.id ≢ row.id) s marked_elsewhere stored_elsewhere req
        w h
  operate-Kept (adds_template req) w whole valid h = added-keeps env (History row log) edits req w h
  operate-Kept (edits_template id req) w whole valid h =
      edited-keeps env (History row log) edits id req w h
  operate-Kept (drops_template id) w whole valid h =
      delete_template-keeps env (History row log) edits id w h
  operate-Kept (creates n) w whole valid h =
      (create-keeps env (History row log) (λ n. n.id ≢ row.id) stored_elsewhere n w h).0
  operate-Kept (marks id s e) w whole valid h = update_status-kept row log over env id s e w whole h
  operate-Kept (cancels id) w whole valid h = cancelled-kept row log over env id w h
  operate-Kept (handles d msg id) w whole valid h = handled-kept row log over env d msg id w h
  operate-Kept (polls size) w whole valid h =
      let fetched = Notifications.fetch_scheduled_due env size w in
      subst (History row log) (sym (enqueue_all-db env fetched.0 fetched.1))
        (fetched-kept row log over env size w valid h)
  operate-Kept re_enqueues w whole valid h =
      subst (History row log) (sym (process_delayed_batch-db env w)) h

  -- A notification that was delivered, cancelled or has failed is as it was after any sequence of
  -- operations in which its status is not updated on its own, whichever calls fail: its row is the
  -- same, and the delivery attempts recorded for it are the same. It needs tables that meet their
  -- constraints at first. What is left out is the update to `queued` that the service makes after it
  -- has enqueued a notification, where a worker has handled the notification in between.
  pub run-History :
      (os : List Operation) (w : W env)
      → All IsWhole os
      → IsSound w.db
      → History row log w.db
      → History row log (run env os w).db
  unfolding run
  run-History [] w whole valid h = h
  run-History (o ∷ os) w whole valid h =
      run-History os (operate env o w) whole.1 (operate-keeps env IsSound IsSound-IsKept o w valid)
        (operate-Kept o w whole.0 valid h)
