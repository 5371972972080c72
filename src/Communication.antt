-- ===== src/Communication.antt =====
-- communication/communication.go: message frames on a byte stream.
pub mod Checksum
pub mod Frame
pub mod Reader
pub mod Reading
pub mod RoundTrip
pub mod Outcomes
pub mod Contents
pub mod Lookahead
pub mod Corruption
pub mod Writing
pub mod Encodings
mod Examples
