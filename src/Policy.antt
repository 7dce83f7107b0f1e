-- ===== src/Policy.antt =====
-- policy/canonical.rs, policy/radix.rs: the filtering rules and their index.
pub mod Key
pub mod Labels
pub mod Rules
pub mod Radix
pub mod Text
pub mod Printing
pub mod Responses
pub mod Explain
pub mod Covered
pub mod Outcome
pub mod Explained
pub mod Chain
pub mod Trace
pub mod Blocked
pub mod Traced
pub mod Disk
