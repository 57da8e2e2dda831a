-- ===== src/System/Integrity.antt =====
-- The invariant of the table of notifications across runs of the process.
use event_driven_notificatio.Prelude.{List}
use event_driven_notificatio.Services.{Services, W}
use event_driven_notificatio.Repository.Integrity.{IsSound, IsSound-IsKept}
use event_driven_notificatio.System.Runs.{Operation, run}
use event_driven_notificatio.System.Keeping.{run-keeps}

module _ (env : Services) where
  -- Whatever sequence of operations the process runs, and whichever of their calls fail, no two
  -- notifications share an ID or an idempotency key that is not NULL, and every notification has one of
  -- the three channels and one of the three priorities.
  pub run-IsSound : (os : List Operation) (w : W env) → IsSound w.db → IsSound (run env os w).db
  run-IsSound os w h = run-keeps env IsSound IsSound-IsKept os w h
