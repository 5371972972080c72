-- ===== src/PeerService.antt =====
-- The package peer_service: the connections of a node and the messages for peers that are not known
-- yet.
pub mod State
pub mod Operations
pub mod Stored
pub mod Found
pub mod Broadcast
pub mod Numbers
pub mod Calls
pub mod Numbering
pub mod Steps
pub mod Locks
pub mod Strangers
pub mod Startup
mod Examples
mod StartExamples
mod LockExamples
