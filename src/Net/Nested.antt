-- ===== src/Net/Nested.antt =====
-- Subnets that share an address, or a base address.
use native.Mathlib.Decide.{dec_le}
use pari_ns.Prelude.{
  ℕ, refl, ap, subst, none, some, some_eq, ◌-◌, ◌/◌, ◌^◌, ◌≤◌, ◌≡◌, sym, ◌∙◌, ◌⊎◌, inl, inr, true,
  arith,
}
use pari_ns.Net.Bits.{shr_coarser}
use pari_ns.Net.Defs.{IpAddr, v4, v6, is_ipv4, bits, width, IpNet}

width_family : (a b : IpAddr) → is_ipv4 a ≡ is_ipv4 b → width a ≡ width b
width_family (v4 a) (v4 b) h = ground arith
width_family (v4 a) (v6 b) h = cc
width_family (v6 a) (v4 b) h = cc
width_family (v6 a) (v6 b) h = ground arith

module _ (ip : IpNet) where
  open ip use {Net, addr, prefix_len, new, contains, new_ok, new_err, contains_iff}

  -- An address of the narrower subnet decides that its base address is in the wider one.
  contains_addr :
      (n m : Net) (a : IpAddr)
      → prefix_len n ≤ prefix_len m
      → contains n a ≡ true
      → contains m a ≡ true
      → contains n (addr m) ≡ true
  contains_addr n m a h hn hm =
      (contains_iff n (addr m)).1 (sym fm.0 ∙ fn.0, rw (← w) (sym top ∙ fn.1))
    where
      fn :
          (is_ipv4 a ≡ is_ipv4 (addr n))
          × (bits a / 2 ^ (width a - prefix_len n) ≡ bits (addr n) / 2 ^ (width a - prefix_len n))
      fn = (contains_iff n a).0 hn

      fm :
          (is_ipv4 a ≡ is_ipv4 (addr m))
          × (bits a / 2 ^ (width a - prefix_len m) ≡ bits (addr m) / 2 ^ (width a - prefix_len m))
      fm = (contains_iff m a).0 hm

      w : width a ≡ width (addr m)
      w = width_family a (addr m) fm.0

      top : bits a / 2 ^ (width a - prefix_len n) ≡ bits (addr m) / 2 ^ (width a - prefix_len n)
      top = shr_coarser (bits a) (bits (addr m)) _ _ (omega arith) fm.1

  -- The test by which the program finds related subnets, for two subnets that share an address.
  pub nested :
      (n m : Net) (a : IpAddr)
      → contains n a ≡ true
      → contains m a ≡ true
      → (contains n (addr m) ≡ true) ⊎ (contains m (addr n) ≡ true)
  nested n m a hn hm = elim (dec_le (prefix_len n) (prefix_len m)) [
    | yes h ↦ inl (contains_addr n m a h hn hm)
    | no h ↦ inr (contains_addr m n a (omega arith) hm hn)
  ]

  pub contains_family : (n : Net) (a : IpAddr) → contains n a ≡ true → is_ipv4 a ≡ is_ipv4 (addr n)
  contains_family n a h = ((contains_iff n a).0 h).0

  -- A subnet holds its own base address.
  pub contains_self : (n : Net) → contains n (addr n) ≡ true
  contains_self n = (contains_iff n (addr n)).1 (refl, refl)

  -- What `new` makes has the address and the prefix that it was given.
  pub new_parts :
      (a : IpAddr) (p : ℕ) (n : Net)
      → new a p ≡ some n
      → (addr n ≡ a) × (prefix_len n ≡ p) × (p ≤ width a)
  new_parts a p n h = elim (dec_le p (width a)) [
    | yes fits ↦
        let (m, e, b, l) = new_ok a p fits in
        let same : m ≡ n = some_eq (sym e ∙ h) in
        subst (λ (x : Net). (addr x ≡ a) × (prefix_len x ≡ p) × (p ≤ width a)) same (b, l, fits)
    | no n ↦ absurd (none_some (sym (new_err a p (omega arith)) ∙ h))
  ]
    where
      none_some : {x : Net} → none ≡ some x → ⊥
      none_some e = cc

  -- A coarser subnet of the same address holds what the finer one holds.
  pub contains_coarser :
      (n m : Net) (a : IpAddr)
      → addr n ≡ addr m
      → prefix_len n ≤ prefix_len m
      → contains m a ≡ true
      → contains n a ≡ true
  contains_coarser n m a same h hm =
      let (f, top) = (contains_iff m a).0 hm in
      (contains_iff n a).1 (
        f ∙ sym (ap is_ipv4 same),
        shr_coarser (bits a) (bits (addr m)) _ _ (omega arith) top ∙ base n m a same,
      )
    where
      base :
          (n m : Net) (a : IpAddr)
          → addr n ≡ addr m
          → bits (addr m) / 2 ^ (width a - prefix_len n)
            ≡ bits (addr n) / 2 ^ (width a - prefix_len n)
      base n m a same = rw same
