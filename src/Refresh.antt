-- ===== src/Refresh.antt =====
-- resolver/refresh.rs: the owner of the refreshes of one generation.
pub mod Owner
pub mod Room
pub mod Slots
pub mod Life
