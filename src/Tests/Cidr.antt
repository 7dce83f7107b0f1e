-- ===== src/Tests/Cidr.antt =====
-- A concrete subnet type that meets the interface of the `ipnet` crate.
use native.Mathlib.Nat.{mul-div_cancel, one-le-pow}
use mathlib.Core.Bool.{false≢true}
use pari_ns.Prelude.{
  sym, ==_iff, ℕ, ◌-◌, ◌*◌, ◌/◌, ◌^◌, ◌≤◌, ◌<◌, min, ◌≡◌, refl, ◌↔◌, Bool, true, false, Option,
  none, some, arith, ◌&&◌, leb, ◌==◌, if◌then◌else◌, ℕ_discrete,
}
use pari_ns.Net.{IpAddr, v4, v6, is_ipv4, bits, width, IpNet}

pub record Cidr : Type 0 where
  pub base : IpAddr
  pub len : ℕ

unfoldable pub Cidr-discrete : Discrete Cidr
Cidr-discrete = hlevel ℕ_discrete

abbrev pub prefix_len : Cidr → ℕ
prefix_len n = min n.len (width n.base)

pub prefix_len_le : (n : Cidr) → prefix_len n ≤ width n.base
prefix_len_le n = omega arith

abbrev host : Cidr → ℕ
host n = 2 ^ (width n.base - prefix_len n)

abbrev with_bits : IpAddr → ℕ → IpAddr
with_bits (v4 a) b = v4 b
with_bits (v6 a) b = v6 b

unfoldable pub trunc : Cidr → Cidr
trunc n = record n { base = with_bits n.base (bits n.base / host n * host n) }

abbrev pub same_family : Bool → Bool → Bool
same_family true true = true
same_family false false = true
same_family _ _ = false

unfoldable pub contains : Cidr → IpAddr → Bool
contains n a =
    same_family (is_ipv4 a) (is_ipv4 n.base)
    && (bits a / 2 ^ (width a - prefix_len n) == bits n.base / 2 ^ (width a - prefix_len n))

unfoldable pub new : IpAddr → ℕ → Option Cidr
new a p = if leb p (width a) then some (record { base = a; len = p }) else none

pub new_ok :
    (a : IpAddr) (p : ℕ)
    → p ≤ width a
    → (n : Cidr) × (new a p ≡ some n) × (n.base ≡ a) × (prefix_len n ≡ p)
unfolding new
new_ok a p h = (record { base = a; len = p }, ground arith, refl, omega arith)

pub new_err : (a : IpAddr) (p : ℕ) → width a < p → new a p ≡ none
unfolding new
new_err a p h = ground arith

-- The families are split first: within one, both sides are the same test.
contains_iff_at :
    (b : IpAddr) (p : ℕ) (a : IpAddr)
    → let n : Cidr = record { base = b; len = p } in
      (contains n a ≡ true) ↔ (
        (is_ipv4 a ≡ is_ipv4 b)
        × (bits a / 2 ^ (width a - prefix_len n) ≡ bits b / 2 ^ (width a - prefix_len n)))
unfolding contains
contains_iff_at (v4 x) p (v4 y) = (λ h. (refl, (==_iff _ _).0 h), λ h. (==_iff _ _).1 h.1)
contains_iff_at (v4 x) p (v6 y) = (λ h. cc, λ h. absurd (false≢true h.0))
contains_iff_at (v6 x) p (v4 y) = (λ h. cc, λ h. absurd (false≢true (sym h.0)))
contains_iff_at (v6 x) p (v6 y) = (λ h. (refl, (==_iff _ _).0 h), λ h. (==_iff _ _).1 h.1)

pub contains_iff :
    (n : Cidr) (a : IpAddr)
    → (contains n a ≡ true) ↔ (
        (is_ipv4 a ≡ is_ipv4 n.base)
        × (bits a / 2 ^ (width a - prefix_len n) ≡ bits n.base / 2 ^ (width a - prefix_len n)))
contains_iff n a = contains_iff_at n.base n.len a

cleared : (x k : ℕ) → x / 2 ^ k * 2 ^ k / 2 ^ k ≡ x / 2 ^ k
cleared x k = mul-div_cancel (x / 2 ^ k) (one-le-pow k 2 (omega arith))

contains_trunc_at :
    (b : IpAddr) (p : ℕ) (a : IpAddr)
    → contains (trunc (record { base = b; len = p })) a ≡ contains (record { base = b; len = p }) a
unfolding contains trunc
contains_trunc_at (v4 x) p (v4 y) = rw (cleared x (32 - min p 32))
contains_trunc_at (v4 x) p (v6 y) = refl
contains_trunc_at (v6 x) p (v4 y) = refl
contains_trunc_at (v6 x) p (v6 y) = rw (cleared x (128 - min p 128))

pub contains_trunc : (n : Cidr) (a : IpAddr) → contains (trunc n) a ≡ contains n a
contains_trunc n a = contains_trunc_at n.base n.len a

pub trunc_kept :
    (b : IpAddr) (p : ℕ)
    → let n : Cidr = trunc (record { base = b; len = p }) in
      (prefix_len n ≡ prefix_len (record { base = b; len = p })) × (is_ipv4 n.base ≡ is_ipv4 b)
unfolding trunc
trunc_kept (v4 x) p = (refl, refl)
trunc_kept (v6 x) p = (refl, refl)

unfoldable pub cidr : IpNet
cidr = record {
  Net = Cidr;
  net_discrete = Cidr-discrete;
  new = new;
  addr = λ n. n.base;
  prefix_len = prefix_len;
  trunc = trunc;
  contains = contains;
  new_ok = new_ok;
  new_err = new_err;
  prefix_len_bound = λ n. prefix_len_le n;
  prefix_len_trunc = λ n. (trunc_kept n.base n.len).0;
  family_trunc = λ n. (trunc_kept n.base n.len).1;
  contains_trunc = contains_trunc;
  contains_iff = contains_iff;
}
