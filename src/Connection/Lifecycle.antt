-- ===== src/Connection/Lifecycle.antt =====
-- The life of a connection under everything that changes it, and the order of its statuses.
pub mod Kept
pub mod Changes
pub mod Termination
