-- ===== src/Connection.antt =====
-- The package peer_service/connection: one peer's connection.
pub mod Spam
pub mod Confirm
pub mod Metadata
pub mod State
pub mod Handshake
pub mod Receive
pub mod Outbound
pub mod Relays
pub mod PeersCycle
pub mod SendCycle
pub mod Window
pub mod Key
pub mod Delivery
pub mod Collision
pub mod Lifecycle
pub mod Peers
pub mod Signature
pub mod PeerExchange
mod Examples
mod PeerExamples
mod LifeExamples
mod SignatureExamples
