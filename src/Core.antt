-- ===== src/Core.antt =====
-- The hoike-core crate: what the responder persists, admits and serves.
pub mod Error
pub mod Storage
pub mod State
pub mod Config
pub mod Samples
pub mod Encoding
pub mod Admission
pub mod Prepare
pub mod Install
pub mod Request
pub mod Router
mod Examples
mod RequestExamples
pub mod RouterExamples
mod StateExamples
mod HistoryExamples
