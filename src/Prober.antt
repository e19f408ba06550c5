-- ===== src/Prober.antt =====
-- Manager, its loops and the probes of internal/app/prober.go.
pub mod Clock
pub mod Schedule
pub mod Percentile
pub mod Burst
pub mod Record
pub mod Manager
mod Examples
