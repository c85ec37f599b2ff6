-- ===== src/Server.antt =====
-- The hoike-server crate: what is answered to a request.
pub mod Http
pub mod Date
pub mod Forward
pub mod Handlers
pub mod Access
mod Examples
mod AccessExamples
mod DateExamples
