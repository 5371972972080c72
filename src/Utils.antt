-- ===== src/Utils.antt =====
-- The package utils: the message queues, hexadecimal text, and signatures.
pub mod Queue
pub mod Hex
pub mod Platform
pub mod Crypto
pub mod Signing
pub mod SpamQueue
pub mod Random
pub mod Waiting
pub mod Toy
mod Examples
