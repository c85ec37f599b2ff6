-- ===== src/Sign.antt =====
-- The hoike-sign crate: what is signed for a CA.
pub mod Error
pub mod Time
pub mod Source
pub mod Config
pub mod Generate
pub mod Produce
pub mod Orchestrate
pub mod Der
pub mod Sync
pub mod Samples
mod Examples
mod OrchestrateExamples
mod DerExamples
mod SyncExamples
