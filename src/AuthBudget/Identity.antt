-- ===== src/AuthBudget/Identity.antt =====
-- manage/auth_budget.rs, the identity that an attempt is charged to.
use pari_ns.Prelude.{ℕ, ◌+◌, ◌*◌, ◌/◌, ◌^◌, ◌≤◌, ◌<◌, ◌≡◌, ◌↔◌, ap, arith}
use pari_ns.Net.{v4, v6, bits, canonical_peer}
use pari_ns.AuthBudget.Table.{identity, masked}

unmapped : (a : ℕ) → 1 ≤ a / 2 ^ 64 → canonical_peer (v6 a) ≡ v6 a
unfolding canonical_peer
unmapped a h = ground arith

v6_eq : {a b : ℕ} → v6 a ≡ v6 b → a ≡ b
v6_eq h = ap bits h

scaled : (a b : ℕ) → a * 2 ^ 64 ≡ b * 2 ^ 64 → a ≡ b
scaled a b h = omega arith

-- IPv6 addresses outside the first /64, which holds the IPv4-mapped addresses, are charged as one
-- identity exactly when they are of one /64.
pub identity_shared :
    (a b : ℕ)
    → 1 ≤ a / 2 ^ 64
    → 1 ≤ b / 2 ^ 64
    → (identity (v6 a) ≡ identity (v6 b)) ↔ (a / 2 ^ 64 ≡ b / 2 ^ 64)
unfolding identity masked
identity_shared a b far_a far_b =
    rw (unmapped a far_a, unmapped b far_b)
      (λ h. scaled (a / 2 ^ 64) (b / 2 ^ 64) (v6_eq h), λ h. rw h)

-- An IPv4-mapped address is charged as its IPv4 address.
identity_mapped : (a : ℕ) → a < 2 ^ 32 → identity (v6 (0xffff * 2 ^ 32 + a)) ≡ identity (v4 a)
unfolding identity masked canonical_peer
identity_mapped a h = ground arith
