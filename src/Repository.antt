-- ===== src/Repository.antt =====
-- internal/repository/notification.go: the rows of the tables, the SQL statements as functions on
-- tables, the methods of `NotificationRepository`, and what holds of them.
pub mod Rows
pub mod Sql
pub mod Templates
pub mod Notifications
pub mod Batch
pub mod Inserting
pub mod Atomic
pub mod Lookup
pub mod Reading
pub mod Queries
pub mod RoundTrip
pub mod Tables
pub mod Keeping
pub mod Integrity
pub mod TemplateLookup
pub mod TemplateEdits
pub mod TemplateStore
pub mod Catalog
pub mod Linking
pub mod Unlinking
pub mod Refusing
pub mod Cancelling
pub mod Due
pub mod Scheduling
pub mod Paging
pub mod Pages
