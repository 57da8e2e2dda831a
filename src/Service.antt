-- ===== src/Service.antt =====
-- internal/service/notification.go, with what it uses of internal/service/template.go and
-- internal/repository/template.go.
pub mod Notifications
pub mod Templates
pub mod Batches
pub mod Keeping
pub mod Refusing
pub mod TemplateRefusing
pub mod Preparing
pub mod AllOrNone
pub mod Editing
pub mod Creating
pub mod Outcomes
