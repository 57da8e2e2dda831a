-- ===== src/Services.antt =====
-- What the program calls and does not implement, and the state that its parts share.
mod Interface
mod Process
pub mod Laws
pub mod Effects
pub use Interface.*
pub use Process.{Row, AttemptRow, TemplateRow, Database, Metric, Request, World, W, Action}
pub use Process.{processed, observed, retried, dead_lettered}
unfoldable pub use Process.{exec, read_rows, redis_do, now, next_uuid, is_done, draw, count_metric}
