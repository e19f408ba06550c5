-- ===== src/Config.antt =====
-- internal/app/config.go: targets, their defaults, and the persisted store of them.
pub mod Target
pub mod Disk
pub mod Targets
pub mod Store
pub mod Fixtures
mod Examples
