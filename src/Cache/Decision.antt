-- ===== src/Cache/Decision.antt =====
-- cache/decision.rs: the outcomes of lookups and stores, and the counters of evictions.
use pari_ns.Prelude.{ℕ, ◌+◌, Bool, true, false, Option, some, if◌then◌else◌}

pub data EvictionReason : Type 0 where
  entries bytes entries_and_bytes variants : EvictionReason

pub data EvictionState : Type 0 where
  fresh retained expired : EvictionState

-- `Evictions`: a counter for each reason and state.
abbrev pub Evictions : Type 0
Evictions = EvictionReason → EvictionState → ℕ

abbrev same_reason : EvictionReason → EvictionReason → Bool
same_reason entries entries = true
same_reason bytes bytes = true
same_reason entries_and_bytes entries_and_bytes = true
same_reason variants variants = true
same_reason _ _ = false

abbrev same_state : EvictionState → EvictionState → Bool
same_state fresh fresh = true
same_state retained retained = true
same_state expired expired = true
same_state _ _ = false

-- `Evictions::record`.
unfoldable pub record_eviction : EvictionReason → EvictionState → Evictions → Evictions
record_eviction reason state evictions r s =
    evictions r s + (if same_reason reason r then if same_state state s then 1 else 0 else 0)

pub data DecisionReason : Type 0 where
  unsupported_query unsupported_edns ecs_unusable ttl_zero : DecisionReason
  negative_without_soa uncacheable_response policy_disabled capacity : DecisionReason
  variant_limit epoch_changed : DecisionReason

pub data LookupOutcome : Type 0 where
  fresh stale miss bypass disabled : LookupOutcome

pub data StoreOutcome : Type 0 where
  admitted replaced skipped superseded_only : StoreOutcome

pub record LookupDecision : Type 0 where
  pub outcome : LookupOutcome
  pub reason : Option DecisionReason

pub record StoreDecision : Type 0 where
  pub outcome : StoreOutcome
  pub reason : Option DecisionReason

unfoldable pub is_admitted : StoreDecision → Bool
is_admitted d = elim d.outcome [
  | admitted ↦ true
  | replaced ↦ true
  | skipped ↦ false
  | superseded_only ↦ false
]

unfoldable pub skip : DecisionReason → StoreDecision
skip reason = record { outcome = skipped; reason = some reason }

unfoldable pub reject : DecisionReason → Bool → StoreDecision
reject reason superseded = record {
  outcome = if superseded then superseded_only else skipped;
  reason = some reason;
}
