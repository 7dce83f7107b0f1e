-- ===== src/Sharing/Evidence.antt =====
-- cache/sharing.rs: the answers that stand behind a record.
use pari_ns.Prelude.{
  ℕ, ◌+◌, ◌≤◌, ◌<◌, max, ◌≡◌, refl, sym, ◌∙◌, ◌⊎◌, inl, inr, Bool, true, false, not, Option, none,
  some, List, [], ◌∷◌, arith, length, All, All-map, Bool-cases, leb,
}
use pari_ns.Net.{IpAddr, is_ipv4, IpNet, nested}
use pari_ns.Ecs.Scope.{Scope, exact_source}
use pari_ns.Sharing.Samples.{
  Sample, retain, swap_remove, overlaps, oldest, span, differs, any_differs, promotable,
}
use pari_ns.Sharing.Record.{SharingConfig, Phase, observing, shared, revoked, make_room}
use pari_ns.Sharing.Apart.{
  Pairwise, All-retain, retain_kept, length-retain-le, Pairwise-retain, All-swap_remove,
  length-swap_remove, Pairwise-swap_remove, oldest_bound,
}

module _ (ip : IpNet) {F : Type 0} (print_discrete : Discrete F) where
  open ip use {Net, net_discrete, addr, contains}

  -- An answer as the table is told of it: when, under which scope, with which fingerprint and
  -- fresh lifetime.
  pub record Report : Type 0 where
    pub now : ℕ
    pub scope : Scope ip
    pub print : Option F
    pub lifetime : Option ℕ

  -- The report gave the sample, with the fingerprint.
  pub record Told (f : F) (r : Report) (s : Sample ip) : Type 0 where
    pub from : r.scope ≡ exact_source s.network
    pub same : r.print ≡ some f
    pub fresh : (l : ℕ) × (r.lifetime ≡ some l) × (s.expires ≡ r.now + l)

  abbrev pub Reported : F → List Report → Sample ip → Type 0
  Reported f [] s = ⊥
  Reported f (r ∷ rs) s = Told f r s ⊎ Reported f rs s

  -- No address is in both networks.
  abbrev pub Apart : Sample ip → Sample ip → Type 0
  Apart s t = (a : IpAddr) → contains s.network a ≡ true → contains t.network a ≡ true → ⊥

  abbrev pub Trusted : F → Bool → List Report → Sample ip → Type 0
  Trusted f v h s = Reported f h s × (is_ipv4 (addr s.network) ≡ v)

  -- Enough answers of one fingerprint, from disjoint networks of one family that do not all lie in
  -- one span, each valid at the time.
  pub record Evidence (c : SharingConfig) (f : F) (v : Bool) (h : List Report) (t : ℕ)
      : Type 0 where
    pub samples : List (Sample ip)
    pub enough : c.min_networks ≤ length samples
    pub apart : Pairwise Apart samples
    pub trusted : All (Trusted f v h) samples
    pub valid : All (λ (s : Sample ip). t ≤ s.expires) samples
    pub spread : (sp : Option Net) → ¬ All (λ s. span ip s ≡ sp) samples

  abbrev pub Backed : SharingConfig → Bool → List Report → Option (Phase ip print_discrete) → Type 0
  Backed c v h none = Unit
  Backed c v h (some (revoked until)) = Unit
  Backed c v h (some (shared f since)) = Evidence c f v h since
  Backed c v h (some (observing f samples)) =
      Pairwise Apart samples × All (Trusted f v h) samples × (length samples ≤ max 1 c.min_networks)

  later_Trusted :
      (f : F) (v : Bool) (r : Report) (h : List Report) (ss : List (Sample ip))
      → All (Trusted f v h) ss
      → All (Trusted f v (r ∷ h)) ss
  later_Trusted f v r h ss t = All-map (λ s p. (inr p.0, p.1)) ss t

  -- A new report does not take any away.
  pub later_Backed :
      (c : SharingConfig) (v : Bool) (r : Report) (h : List Report)
      (p : Option (Phase ip print_discrete))
      → Backed c v h p
      → Backed c v (r ∷ h) p
  later_Backed c v r h none b = tt
  later_Backed c v r h (some (revoked until)) b = tt
  later_Backed c v r h (some (shared f since)) b = record {
    samples = b.samples;
    enough = b.enough;
    apart = b.apart;
    trusted = later_Trusted f v r h b.samples b.trusted;
    valid = b.valid;
    spread = b.spread;
  }
  later_Backed c v r h (some (observing f samples)) b =
      (b.0, later_Trusted f v r h samples b.1, b.2)

  pub Apart-sym : (s t : Sample ip) → Apart s t → Apart t s
  Apart-sym s t d a hs ht = d a ht hs

  -- The program's test of overlap is exact.
  overlaps-Apart : (s t : Sample ip) → not (overlaps ip s.network t.network) ≡ true → Apart t s
  overlaps-Apart s t e a ht hs = elim (nested ip s.network t.network a hs ht) [
    | inl k ↦ ground arith
    | inr k ↦ ground arith
  ]

  differs_eq : (a b : Option Net) → a ≡ b → differs ip a b ≡ false
  unfolding differs
  differs_eq none none e = refl
  differs_eq none (some m) e = cc
  differs_eq (some n) none e = cc
  differs_eq (some n) (some m) e = ground arith

  none_differs :
      (first : Option Net) (ss : List (Sample ip))
      → All (λ s. span ip s ≡ first) ss
      → any_differs ip first ss ≡ false
  unfolding any_differs
  none_differs first [] h = refl
  none_differs first (s ∷ ss) h =
      rw (differs_eq (span ip s) first h.0, none_differs first ss h.1) refl

  -- What the promotion test ensures.
  pub promotable_lem :
      (ss : List (Sample ip)) (m : ℕ)
      → promotable ip ss m ≡ true
      → (m ≤ length ss) × ((sp : Option Net) → ¬ All (λ s. span ip s ≡ sp) ss)
  unfolding promotable
  promotable_lem [] m h = cc
  promotable_lem (s ∷ ss) m h = (ground arith, apart)
    where
      apart : (sp : Option Net) → ¬ All (λ t. span ip t ≡ sp) (s ∷ ss)
      apart sp k =
          let all_first : All (λ t. span ip t ≡ span ip s) (s ∷ ss) =
            All-map (λ t e. e ∙ sym k.0) (s ∷ ss) k in
          let e = none_differs (span ip s) (s ∷ ss) all_first in ground arith

  -- Where there is a sample, one goes.
  one_less :
      (ss : List (Sample ip)) → length (swap_remove (oldest ip ss) ss) + 1 ≤ max 1 (length ss)
  unfolding swap_remove
  one_less [] = omega arith
  one_less (s ∷ ss) = omega (
    arith,
    length-swap_remove (oldest ip (s ∷ ss)) (s ∷ ss) (oldest_bound ip (s ∷ ss) (omega arith)),
  )

  module _ (c : SharingConfig) (s : Sample ip) (live : List (Sample ip)) where
    apart_kept : List (Sample ip)
    apart_kept = retain (λ t. not (overlaps ip s.network t.network)) live

    make_room-cases :
        ((length apart_kept < c.min_networks)
          × (make_room ip print_discrete c s.network live ≡ apart_kept))
        ⊎ ((c.min_networks ≤ length apart_kept)
            × (make_room ip print_discrete c s.network live
                ≡ swap_remove (oldest ip apart_kept) apart_kept))
    unfolding make_room apart_kept
    make_room-cases = elim (Bool-cases (leb c.min_networks (length apart_kept))) [
      | inl e ↦ inr (ground arith, rw (e, make_room) refl)
      | inr e ↦ inl (ground arith, rw (e, make_room) refl)
    ]

    -- With room made, the new sample is disjoint from all that stay, and what held of them stays.
    pub make_room_lem :
        (P : Sample ip → Type 0)
        → All P live
        → Pairwise Apart live
        → length live ≤ max 1 c.min_networks
        → let left = make_room ip print_discrete c s.network live in
          All P left
          × Pairwise Apart left
          × All (λ t. Apart t s) left
          × (length left + 1 ≤ max 1 c.min_networks)
    unfolding apart_kept
    make_room_lem P h d b = elim make_room-cases [
      | inl (short, e) ↦ rw e (all, apart, far, omega arith)
      | inr (full, e) ↦
          let i = oldest ip apart_kept in
          rw e (
            All-swap_remove P i apart_kept all,
            Pairwise-swap_remove Apart Apart-sym i apart_kept apart,
            All-swap_remove _ i apart_kept far,
            omega (
              arith,
              one_less apart_kept,
              length-retain-le (λ t. not (overlaps ip s.network t.network)) live,
            ),
          )
    ]
      where
        all : All P apart_kept
        all = All-retain P _ live h

        apart : Pairwise Apart apart_kept
        apart = Pairwise-retain Apart _ live d

        far : All (λ t. Apart t s) apart_kept
        far = All-map (λ t e. overlaps-Apart s t e) apart_kept (retain_kept _ live)
