-- ===== src/Tests/Runs/Histories.antt =====
-- The theorems about long runs and about lists of pages, each at one concrete input.
use event_driven_notificatio.Prelude.{◌≡◌, refl, inl, inr, none, List, [], ◌∷◌, ok, arith}
use event_driven_notificatio.Prelude.Int.{pos}
use event_driven_notificatio.Domain.{NotificationFilter, queued, cancelled, delivered}
use event_driven_notificatio.Services.{World}
use event_driven_notificatio.Repository.Sql.{matches, matches_fields}
use event_driven_notificatio.Repository.Pages.{pages, whole, pages-whole}
use event_driven_notificatio.System.Runs.{
  Operation, serves, marks, cancels, handles, polls, re_enqueues, run,
}
use event_driven_notificatio.System.Finality.{History}
use event_driven_notificatio.System.Ended.{run-History}
use event_driven_notificatio.Tests.Environment.{Memory, empty_memory, steady, failing}
use event_driven_notificatio.Tests.Runs.{runs, row, world, dispatcher, message}
use event_driven_notificatio.Tests.Runs.Requests.{service, request}

abbrev quiet_day : List Operation
quiet_day =
    cancels 7
    ∷ marks 9 queued []
    ∷ handles dispatcher message 7
    ∷ serves service request
    ∷ polls 100
    ∷ re_enqueues
    ∷ []

run-History_example : History (row cancelled 0) [] (run failing quiet_day (world cancelled 0)).db
unfolding runs
run-History_example =
    run-History failing (row cancelled 0) [] (inr (inl refl)) quiet_day (world cancelled 0)
      (tt, (omega arith, (tt, (tt, (tt, (tt, tt)))))) (refl, refl, refl, refl, tt) (refl, refl)

abbrev three_rows : World Memory
three_rows = record {
  db = record {
    notifications =
        row queued 0
        ∷ record (row delivered 1) { id = 9; created_at = 1600000001000000000 }
        ∷ record (row cancelled 0) { id = 8 }
        ∷ [];
    attempts = [];
    templates = [];
  };
  redis = empty_memory;
  subscribers = [];
  frames = [];
  metrics = [];
  requests = [];
  step = 0;
}

abbrev one_by_one : NotificationFilter
one_by_one = record { status = none; channel = none; batch_id = none; cursor = none; limit = pos 1 }

pages-whole_example :
    (pages steady 4 one_by_one three_rows).0
    ≡ ok (whole steady one_by_one three_rows.db.notifications)
unfolding runs matches matches_fields
pages-whole_example =
    pages-whole steady (λ k. refl) (λ k. refl) 4 one_by_one three_rows
      (refl, refl, refl, refl, (refl, refl, refl, refl, (refl, refl, refl, refl, tt)))
      (refl, (refl, (refl, tt))) refl (omega arith)
