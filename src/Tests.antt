-- ===== src/Tests.antt =====
-- Concrete values of the interfaces, runs on small inputs, and the theorems at inputs that meet
-- their hypotheses.
mod Cidr
mod Limits
mod Lru
mod AuthBudget
mod Ecs
mod Wire
mod Sharing
mod Cache
mod Refresh
mod Shard
mod Policy
mod Chain
mod Flight
mod Screen
