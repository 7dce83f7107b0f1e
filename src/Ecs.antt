-- ===== src/Ecs.antt =====
-- ecs.rs: the scope that an answer may be reused in, and the client subnet of a query.
pub mod Scope
pub mod Prepare
pub mod Identity
pub mod Response
pub mod Decoder
pub mod Wire
pub mod Overlap
