-- ===== src/Ecs/Overlap.antt =====
-- cache.rs, `scopes_overlap` and `learned_serves`: which stored answers a new answer replaces.
use pari_ns.Prelude.{
  ◌≡◌, refl, sym, ◌∙◌, Bool, true, false, Option, none, some, ◌&&◌, ◌||◌, ltb, arith,
}
use pari_ns.Net.{IpAddr, is_ipv4, IpNet, nested, contains_family, contains_self, new_parts}
use pari_ns.Ecs.Scope.{
  Subnet, Scope, no_ecs, privacy, network, exact_source, learned, same, matches, is_network_of,
}

module _ (ip : IpNet) where
  open ip use {Net, addr, prefix_len, contains, trunc, new, contains_trunc}

  -- Either network holds the other's address.
  abbrev related : Net → Net → Bool
  related n m = contains n (addr m) || contains m (addr n)

  unfoldable pub scopes_overlap : Scope ip → Scope ip → Bool
  scopes_overlap (network n) (network m) = related n m
  scopes_overlap (network n) (exact_source m) = related n m
  scopes_overlap (exact_source n) (network m) = related n m
  scopes_overlap (exact_source n) (exact_source m) = related n m
  scopes_overlap (learned ipv4) (network n) = same (is_ipv4 (addr n)) ipv4
  scopes_overlap (learned ipv4) (exact_source n) = same (is_ipv4 (addr n)) ipv4
  scopes_overlap (network n) (learned ipv4) = same (is_ipv4 (addr n)) ipv4
  scopes_overlap (exact_source n) (learned ipv4) = same (is_ipv4 (addr n)) ipv4
  scopes_overlap no_ecs no_ecs = true
  scopes_overlap (privacy a) (privacy b) = same a b
  scopes_overlap (learned a) (learned b) = same a b
  scopes_overlap _ _ = false

  -- Whether a learned entry answers the network that an invalidation names.
  unfoldable pub learned_serves : Scope ip → Scope ip → Bool
  learned_serves (learned ipv4) (network n) = ltb 0 (prefix_len n) && same (is_ipv4 (addr n)) ipv4
  learned_serves (learned ipv4) (exact_source n) =
      ltb 0 (prefix_len n) && same (is_ipv4 (addr n)) ipv4
  learned_serves _ _ = false

  same_refl : (a : Bool) → same a a ≡ true
  same_refl true = refl
  same_refl false = refl

  same_eq : (a b : Bool) → same a b ≡ true → a ≡ b
  same_eq true true h = refl
  same_eq false false h = refl
  same_eq true false h = cc
  same_eq false true h = cc

  same_of_eq : (a b : Bool) → a ≡ b → same a b ≡ true
  same_of_eq a b e = rw e (same_refl b)

  related_lem :
      (n m : Net) (a : IpAddr) → contains n a ≡ true → contains m a ≡ true → related n m ≡ true
  related_lem n m a h k = ground (arith, nested ip n m a h k)

  -- A scope that serves a client by its network holds the client's address.
  holds_network :
      (n : Net) (ecs : Subnet)
      → matches ip (network n) (some ecs) ≡ true
      → contains n ecs.addr ≡ true
  unfolding matches
  holds_network n ecs h = ground arith

  is_network_of_holds :
      (n : Net) (ecs : Subnet) → is_network_of ip ecs n ≡ true → contains n ecs.addr ≡ true
  unfolding is_network_of
  is_network_of_holds n ecs h = go (new ecs.addr ecs.source_prefix) refl
    where
      go : (o : Option Net) → new ecs.addr ecs.source_prefix ≡ o → contains n ecs.addr ≡ true
      go none e = absurd (ground arith)
      go (some sent) e =
          let (b, l, w) = new_parts ip ecs.addr ecs.source_prefix sent e in
          let t : trunc sent ≡ n = ground arith in
          rw (← t, contains_trunc sent ecs.addr, ← b) (contains_self ip sent)

  holds_exact :
      (n : Net) (ecs : Subnet)
      → matches ip (exact_source n) (some ecs) ≡ true
      → contains n ecs.addr ≡ true
  unfolding matches
  holds_exact n ecs h = is_network_of_holds n ecs (ground arith)

  learned_family :
      (ipv4 : Bool) (n : Net) (ecs : Subnet)
      → matches ip (learned ipv4) (some ecs) ≡ true
      → contains n ecs.addr ≡ true
      → same (is_ipv4 (addr n)) ipv4 ≡ true
  unfolding matches
  learned_family ipv4 n ecs h k =
      same_of_eq _ _ (
        sym (contains_family ip n ecs.addr k)
        ∙ sym (same_eq ipv4 (is_ipv4 ecs.addr) (ground arith)))

  -- Two answers that serve the same client overlap: whatever a client could have been served
  -- before, a new answer that serves it replaces.
  pub overlap_of_match :
      (a b : Scope ip) (outgoing : Option Subnet)
      → matches ip a outgoing ≡ true
      → matches ip b outgoing ≡ true
      → scopes_overlap a b ≡ true
  unfolding scopes_overlap matches
  overlap_of_match (network n) (network m) (some ecs) h k =
      related_lem n m ecs.addr (holds_network n ecs h) (holds_network m ecs k)
  overlap_of_match (network n) (exact_source m) (some ecs) h k =
      related_lem n m ecs.addr (holds_network n ecs h) (holds_exact m ecs k)
  overlap_of_match (exact_source n) (network m) (some ecs) h k =
      related_lem n m ecs.addr (holds_exact n ecs h) (holds_network m ecs k)
  overlap_of_match (exact_source n) (exact_source m) (some ecs) h k =
      related_lem n m ecs.addr (holds_exact n ecs h) (holds_exact m ecs k)
  overlap_of_match (learned v) (network n) (some ecs) h k =
      learned_family v n ecs h (holds_network n ecs k)
  overlap_of_match (learned v) (exact_source n) (some ecs) h k =
      learned_family v n ecs h (holds_exact n ecs k)
  overlap_of_match (network n) (learned v) (some ecs) h k =
      learned_family v n ecs k (holds_network n ecs h)
  overlap_of_match (exact_source n) (learned v) (some ecs) h k =
      learned_family v n ecs k (holds_exact n ecs h)
  overlap_of_match (learned v) (learned w) (some ecs) h k = ground arith
  overlap_of_match (privacy v) (privacy w) (some ecs) h k = ground arith
  overlap_of_match no_ecs no_ecs o h k = refl
  overlap_of_match a b o h k = ground arith
