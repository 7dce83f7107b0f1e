-- ===== src/Sharing.antt =====
-- cache/sharing.rs: answers without a client subnet that are learned to be the same for a whole
-- address family.
pub mod Samples
pub mod Record
pub mod Apart
pub mod Evidence
pub mod Learning
pub mod History
pub mod Revocation
