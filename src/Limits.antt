-- ===== src/Limits.antt =====
-- limits.rs: admission budgets keyed by the transport peer's subnet. Times are nanoseconds; the
-- lock is held for one whole call, so a call is one step on the table.
pub mod Settings
pub mod Table
pub mod Refill
pub mod Invariant
pub mod Sweeping
pub mod Account
pub mod Rate
pub mod Permits
pub mod Limiter
pub mod Admission
