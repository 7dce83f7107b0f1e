-- ===== src/Ecs/Identity.antt =====
-- ecs.rs, `Context::prepare`: whose network a query may name upstream.
use pari_ns.Prelude.{◌<◌, ◌≡◌, true, some}
use pari_ns.Net.{IpAddr, IpNet}
use pari_ns.Ecs.Scope.{Subnet}
use pari_ns.Ecs.Prepare.{Prepared, rejected, prepared}

module _ (ip : IpNet) where
  open ip use {Net, addr, prefix_len, new, trunc, contains, contains_trunc}

  -- The network that a subnet names, if any, holds the peer.
  abbrev Own : IpAddr → Subnet → Type 0
  Own peer sent =
      0 < sent.source_prefix
      → (a : IpAddr) × (n : Net) × (new a sent.source_prefix ≡ some n)
        × (sent.addr ≡ addr (trunc n))
        × (contains (trunc n) peer ≡ true)

  abbrev Owned : IpAddr → Prepared → Type 0
  Owned peer (rejected r) = Unit
  Owned peer (prepared q ctx) = (sent : Subnet) → ctx.outgoing ≡ some sent → Own peer sent
