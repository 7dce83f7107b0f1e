-- ===== src/Ecs/Scope.antt =====
-- ecs.rs, `Scope`: which outgoing client subnets an answer serves, and the prefix it replies with.
use pari_ns.Prelude.{ℕ, Bool, true, false, Option, none, some, ◌&&◌, ltb, leb, ◌==◌, ite}
use pari_ns.Net.{IpAddr, is_ipv4, IpNet}

-- hickory's `ClientSubnet`: address, source prefix and scope prefix.
pub record Subnet : Type 0 where
  pub addr : IpAddr
  pub source_prefix : ℕ
  pub scope_prefix : ℕ

-- Equality of the two address families.
abbrev pub same : Bool → Bool → Bool
same true true = true
same false false = true
same _ _ = false

module _ (ip : IpNet) where
  open ip use {Net, net_discrete, new, prefix_len, trunc, contains}

  pub data Scope : Type 0 where
    no_ecs : Scope
    privacy : Bool → Scope
    network : Net → Scope
    exact_source : Net → Scope
    learned : Bool → Scope

  -- `IpNet::new(addr, prefix).is_ok_and(|sent| sent.trunc() == network)`.
  unfoldable pub is_network_of : Subnet → Net → Bool
  is_network_of ecs n = elim (new ecs.addr ecs.source_prefix) [
    | none ↦ false
    | some sent ↦ ite (net_discrete (trunc sent) n) true false
  ]

  unfoldable pub matches : Scope → Option Subnet → Bool
  matches no_ecs none = true
  matches (privacy ipv4) (some ecs) = ecs.source_prefix == 0 && same ipv4 (is_ipv4 ecs.addr)
  matches (network n) (some ecs) =
      ltb 0 ecs.source_prefix && leb (prefix_len n) ecs.source_prefix && contains n ecs.addr
  matches (exact_source n) (some ecs) =
      ltb 0 ecs.source_prefix && prefix_len n == ecs.source_prefix && is_network_of ecs n
  matches (learned ipv4) (some ecs) = ltb 0 ecs.source_prefix && same ipv4 (is_ipv4 ecs.addr)
  matches _ _ = false

  unfoldable pub scope_prefix_len : Scope → ℕ
  scope_prefix_len (network n) = prefix_len n
  scope_prefix_len (exact_source n) = prefix_len n
  scope_prefix_len no_ecs = 0
  scope_prefix_len (privacy ipv4) = 0
  scope_prefix_len (learned ipv4) = 0

  -- Learned answers echo the requester's own source prefix.
  unfoldable pub reply_scope : Scope → Option Subnet → Option ℕ
  reply_scope no_ecs outgoing = none
  reply_scope (learned ipv4) none = none
  reply_scope (learned ipv4) (some ecs) = some ecs.source_prefix
  reply_scope (privacy ipv4) outgoing = some 0
  reply_scope (network n) outgoing = some (prefix_len n)
  reply_scope (exact_source n) outgoing = some (prefix_len n)
