-- ===== src/AuthBudget.antt =====
-- manage/auth_budget.rs: sign-in attempts per source. Times are nanoseconds; the lock is held for
-- one whole call, so a call is one step on the table.
pub mod Table
pub mod Identity
pub mod Sweeping
pub mod Invariant
pub mod Account
pub mod Window
