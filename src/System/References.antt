-- ===== src/System/References.antt =====
-- The invariant of the table of templates across runs of the process.
use event_driven_notificatio.Prelude.{List}
use event_driven_notificatio.Services.{Services, W}
use event_driven_notificatio.Repository.Catalog.{IsLinked}
use event_driven_notificatio.Repository.Unlinking.{IsLinked-IsKept}
use event_driven_notificatio.System.Runs.{Operation, run}
use event_driven_notificatio.System.Keeping.{run-keeps}

module _ (env : Services) where
  -- Whatever sequence of operations the process runs, and whichever of their calls fail, no two
  -- templates share an ID or a name, every template has one of the three channels, and every template
  -- that a notification refers to is in the table.
  pub run-IsLinked : (os : List Operation) (w : W env) → IsLinked w.db → IsLinked (run env os w).db
  run-IsLinked os w h = run-keeps env IsLinked IsLinked-IsKept os w h
