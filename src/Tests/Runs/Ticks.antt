-- ===== src/Tests/Runs/Ticks.antt =====
-- The theorems about the scheduler's and the delayed set's tickers, each at one concrete input.
use event_driven_notificatio.Prelude.{◌≡◌, refl, some, [], ◌∷◌, All}
use event_driven_notificatio.Domain.{Notification, scheduled, channel_email, priority_normal}
use event_driven_notificatio.Services.{Row, World}
use event_driven_notificatio.Repository.Rows.{scan_notification}
use event_driven_notificatio.Repository.Sql.{mark_pending}
use event_driven_notificatio.Repository.Notifications.{fetch_scheduled_due}
use event_driven_notificatio.Repository.Scheduling.{
  Fetched, Taken, fetch_scheduled_due_moves, fetch_scheduled_due_returns,
}
use event_driven_notificatio.Queue.Producer.{member, enqueue}
use event_driven_notificatio.Worker.Dispatcher.{re_enqueue}
use event_driven_notificatio.Worker.Retrying.{re_enqueue-member}
use event_driven_notificatio.Tests.Environment.{Memory, steady, environment-UuidLaws}
use event_driven_notificatio.Services.{answered, response}
use event_driven_notificatio.Prelude.Text.{str}
use event_driven_notificatio.Tests.Runs.{runs, row, world}

abbrev due_row : Row
due_row = record (row scheduled 0) { scheduled_at = some 1600000000000000000 }

abbrev due_world : World Memory
due_world = record (world scheduled 0) {
  db = record { notifications = due_row ∷ []; attempts = []; templates = [] };
}

abbrev fetched : Notification
fetched = scan_notification steady (mark_pending 1700000000000000000 due_row)

fetch_scheduled_due_moves_example :
    Fetched steady 10 due_world due_row (fetch_scheduled_due steady 10 due_world).1
unfolding runs
fetch_scheduled_due_moves_example =
    fetch_scheduled_due_moves steady 10 due_world due_row (refl, refl, refl, refl, tt) refl

fetch_scheduled_due_returns_example : All (Taken steady 10 due_world) (fetched ∷ [])
unfolding runs
fetch_scheduled_due_returns_example =
    fetch_scheduled_due_returns steady 10 due_world (fetched ∷ []) (refl, refl, refl, refl, tt) refl

re_enqueue-member_example :
    (re_enqueue steady (member steady 7 channel_email priority_normal) due_world).1
    ≡ (enqueue steady 7 channel_email priority_normal due_world).1
unfolding runs
re_enqueue-member_example =
    re_enqueue-member steady (environment-UuidLaws (λ n. answered) (response 202 (str "ok"))) 7
      channel_email priority_normal due_world refl refl
