-- ===== src/Gossip.antt =====
-- The hoike-gossip crate: announcements of bundles among the nodes of a fleet.
pub mod Message
pub mod Crypto
pub mod Broadcast
pub mod Node
mod Samples
mod Examples
