-- ===== src/Net/Defs.antt =====
-- Addresses as numbers with their family, and the `ipnet` crate as an interface.
use pari_ns.Prelude.{
  ℕ_discrete, ℕ, ◌-◌, ◌/◌, ◌%◌, ◌^◌, ◌≤◌, ◌<◌, ◌≡◌, ◌↔◌, Bool, true, false, Option, none, some,
  ◌==◌, if◌then◌else◌,
}

pub data IpAddr : Type 0 where
  v4 : ℕ → IpAddr
  v6 : ℕ → IpAddr

unfoldable pub IpAddr-discrete : Discrete IpAddr
IpAddr-discrete = hlevel ℕ_discrete

abbrev pub is_ipv4 : IpAddr → Bool
is_ipv4 (v4 a) = true
is_ipv4 (v6 a) = false

abbrev pub bits : IpAddr → ℕ
bits (v4 a) = a
bits (v6 a) = a

abbrev pub width : IpAddr → ℕ
width (v4 a) = 32
width (v6 a) = 128

-- An IPv6 address `::ffff:a.b.c.d` counts as the IPv4 address; every other address is kept.
unfoldable pub canonical_peer : IpAddr → IpAddr
canonical_peer (v4 a) = v4 a
canonical_peer (v6 a) = if a / 2 ^ 32 == 0xffff then v4 (a % 2 ^ 32) else v6 a

-- What the program relies on of `ipnet::IpNet`: `new` checks the prefix length, `trunc` clears
-- the host bits, and `contains` compares the family and the network bits.
pub record IpNet : Type 1 where
  pub Net : Type 0
  pub net_discrete : Discrete Net
  pub new : IpAddr → ℕ → Option Net
  pub addr : Net → IpAddr
  pub prefix_len : Net → ℕ
  pub trunc : Net → Net
  pub contains : Net → IpAddr → Bool
  pub new_ok :
      (a : IpAddr) (p : ℕ)
      → p ≤ width a
      → (n : Net) × (new a p ≡ some n) × (addr n ≡ a) × (prefix_len n ≡ p)
  pub new_err : (a : IpAddr) (p : ℕ) → width a < p → new a p ≡ none
  pub prefix_len_bound : (n : Net) → prefix_len n ≤ width (addr n)
  pub prefix_len_trunc : (n : Net) → prefix_len (trunc n) ≡ prefix_len n
  pub family_trunc : (n : Net) → is_ipv4 (addr (trunc n)) ≡ is_ipv4 (addr n)
  pub contains_trunc : (n : Net) (a : IpAddr) → contains (trunc n) a ≡ contains n a
  pub contains_iff :
      (n : Net) (a : IpAddr)
      → (contains n a ≡ true) ↔ (
          (is_ipv4 a ≡ is_ipv4 (addr n))
          × (bits a / 2 ^ (width a - prefix_len n) ≡ bits (addr n) / 2 ^ (width a - prefix_len n)))
