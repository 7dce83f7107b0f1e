-- ===== src/Cache.antt =====
-- cache.rs: the response cache.
pub mod Lru
pub mod Decision
pub mod Select
pub mod Best
pub mod Shard
pub mod Partition
pub mod Growth
pub mod Bucket
pub mod Consistent
pub mod Removal
pub mod Readers
pub mod New
pub mod FailureLaws
pub mod InvalidateLaws
pub mod ServeLaws
pub mod Published
pub mod RoundTrip
pub mod AdmitLaws
pub mod Admission
pub mod Sweep
pub mod Placement
pub mod Publish
pub mod Alike
pub mod Eviction
pub mod Admit
pub mod Store
pub mod Failing
pub mod Serve
pub mod Invalidate
pub mod Sizing
pub mod Shares
