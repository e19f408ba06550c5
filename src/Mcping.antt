-- ===== src/Mcping.antt =====
-- internal/mcping/mcping.go: the server-list-ping protocol.
pub mod Result
pub mod Reader
pub mod VarInt
pub mod Packet
pub mod Status
pub mod Session
mod Examples
