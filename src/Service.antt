-- ===== src/Service.antt =====
-- The installation as a background service, of internal/app/service.go.
pub mod Quote
pub mod Files
pub mod System
pub mod Install
pub mod Fixtures
mod Examples
