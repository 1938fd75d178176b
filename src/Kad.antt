-- ===== src/Kad.antt =====
-- The Kademlia node, crates/kad/src.
pub mod Key
pub mod Bucket
pub mod Table
pub mod Closest
pub mod Refresh
pub mod Routing
pub mod Messages
pub mod Find
pub mod Seeds
