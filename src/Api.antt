-- ===== src/Api.antt =====
-- internal/api/handler: the HTTP handlers, and the table of routes of internal/api/router.go.
pub mod Responses
pub mod Query
pub mod Handlers
pub mod Routes
pub mod Reading
pub mod Refusing
pub mod Outcomes
