-- ===== src/Server.antt =====
-- The checks on remote hosts of internal/app/server.go.
pub mod Address
pub mod Proxy
pub mod Api
pub mod Mux
pub mod Fixtures
mod Examples
