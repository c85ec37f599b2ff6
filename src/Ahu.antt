-- ===== src/Ahu.antt =====
-- The ahu crate: the bundle container format, its verification and its operations.
pub mod Error
pub mod Wire
pub mod Header
pub mod Index
pub mod Cbor
pub mod Manifest
pub mod Bundle
pub mod Build
pub mod Ops
pub mod Verify
pub mod Samples
pub mod Examples
mod BuildExamples
mod OpsExamples
