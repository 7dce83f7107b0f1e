-- ===== src/Sharing/History.antt =====
-- cache/sharing.rs: the record of one class through all that happens to it.
use pari_ns.Prelude.{
  ℕ, ◌-◌, ◌≤◌, ◌<◌, ◌≡◌, refl, inl, inr, Bool, Option, none, some, List, [], ◌∷◌, max, length, ltb,
  Bool-cases,
}
use pari_ns.Net.{is_ipv4, IpNet}
use pari_ns.Ecs.Scope.{Scope, no_ecs, privacy, network, exact_source, learned}
use pari_ns.Sharing.Record.{
  SharingConfig, Phase, observing, shared, revoked, Observed, unchanged, revoke, contradict,
  observe, shared_max_age,
}
use pari_ns.Sharing.Evidence.{Report, Evidence, Apart, Backed, later_Backed}
use pari_ns.Sharing.Samples.{Sample}
use pari_ns.Sharing.Apart.{Pairwise}
use pari_ns.Sharing.Learning.{observe_exact-Sound}

module _ (ip : IpNet) {F : Type 0} (print_discrete : Discrete F) (c : SharingConfig) where
  open ip use {Net, addr, prefix_len}

  abbrev Reports : Type 0
  Reports = List (Report ip print_discrete)

  abbrev Kept : Type 0
  Kept = Option (Phase ip print_discrete)

  abbrev pub told : Report ip print_discrete → Kept → Observed ip print_discrete
  told r p = observe ip print_discrete c r.now r.scope r.print r.lifetime p

  -- The network of an answer is of the family that the record is kept for; an answer without a
  -- network does not touch the record.
  abbrev pub InClass : Bool → Scope ip → Type 0
  InClass v (exact_source n) = is_ipv4 (addr n) ≡ v
  InClass v (network n) = is_ipv4 (addr n) ≡ v
  InClass v _ = Unit

  -- The records that a class goes through: answers are observed in any order and at any times, and
  -- the table may forget the record, by eviction or by invalidation.
  pub data Reach (v : Bool) : Reports → Kept → Type 0 where
    start : Reach v [] none
    observes :
        {h : Reports} {p : Kept} (r : Report ip print_discrete)
        → InClass v r.scope
        → Reach v h p
        → Reach v (r ∷ h) (told r p).left
    forgets : {h : Reports} {p : Kept} → Reach v h p → Reach v h none

  contradict_back :
      (v : Bool) (h : Reports) (now : ℕ) (n : Net) (p : Kept)
      → Backed ip print_discrete c v h p
      → Backed ip print_discrete c v h (contradict ip print_discrete c now n p).left
  unfolding contradict unchanged revoke
  contradict_back v h now n none b = tt
  contradict_back v h now n (some (observing f ss)) b = tt
  contradict_back v h now n (some (shared f since)) b = tt
  contradict_back v h now n (some (revoked until)) b = elim (Bool-cases (ltb now until)) [
    | inl e ↦ rw (e, contradict) tt
    | inr e ↦ rw (e, contradict) tt
  ]

  told_back :
      (v : Bool) (h : Reports) (r : Report ip print_discrete) (now : ℕ) (sc : Scope ip)
      (print : Option F) (lifetime : Option ℕ) (p : Kept)
      → InClass v sc
      → r ≡ record { now = now; scope = sc; print = print; lifetime = lifetime }
      → Backed ip print_discrete c v h p
      → Backed ip print_discrete c v
          (r ∷ h)
          (observe ip print_discrete c now sc print lifetime p).left
  unfolding observe unchanged
  told_back v h r now (exact_source n) print lifetime p k e b =
      rw e (observe_exact-Sound ip print_discrete c v h now n print lifetime k p b).0
  told_back v h r now (network n) print lifetime p k e b =
      elim (Bool-cases (ltb 0 (prefix_len n))) [
        | inl some_bits ↦
            rw (some_bits, observe)
              (contradict_back v (r ∷ h) now n p (later_Backed ip print_discrete c v r h p b))
        | inr empty ↦ rw (empty, observe) (later_Backed ip print_discrete c v r h p b)
      ]
  told_back v h r now no_ecs print lifetime p k e b = later_Backed ip print_discrete c v r h p b
  told_back v h r now (privacy w) print lifetime p k e b =
      later_Backed ip print_discrete c v r h p b
  told_back v h r now (learned w) print lifetime p k e b =
      later_Backed ip print_discrete c v r h p b

  Reach-Backed :
      {v : Bool} {h : Reports} {p : Kept} → Reach v h p → Backed ip print_discrete c v h p
  Reach-Backed start = tt
  Reach-Backed {v} (observes {h} {p} r k reach) =
      told_back v h r r.now r.scope r.print r.lifetime p k refl (Reach-Backed reach)
  Reach-Backed (forgets reach) = tt

  -- Whenever an answer for one network is stored for a whole family, after any answers at any
  -- times and any loss of the record: the family is the network's own, the answer has a
  -- fingerprint, and at some moment that is not an hour or more in the past there stood at least
  -- `min_networks` answers of that fingerprint, from networks of the family of which no two share
  -- an address and not all lie in one span, each of them still valid at that moment.
  pub learned-Evidence :
      {v : Bool} {h : Reports} {p : Kept} (now : ℕ) (n : Net) (print : Option F)
      (lifetime : Option ℕ) (w : Bool)
      → Reach v h p
      → is_ipv4 (addr n) ≡ v
      → (observe ip print_discrete c now (exact_source n) print lifetime p).seen.scope ≡ learned w
      → (w ≡ v)
        × (f : F) × (print ≡ some f)
        × (since : ℕ) × (now - since < shared_max_age)
        × Evidence ip print_discrete c f v
            (record { now = now; scope = exact_source n; print = print; lifetime = lifetime } ∷ h)
            since
  learned-Evidence {v} {h} {p} now n print lifetime w reach k e =
      (observe_exact-Sound ip print_discrete c v h now n print lifetime k p (Reach-Backed reach)).1
        w e

  -- A record that still observes, after any answers and any loss of the record, never holds more
  -- samples than the networks it asks for, or one if it asks for none, and no two of them share an
  -- address.
  pub observing_bound :
      {v : Bool} {h : Reports} (f : F) (samples : List (Sample ip))
      → Reach v h (some (observing f samples))
      → (length samples ≤ max 1 c.min_networks) × Pairwise (Apart ip print_discrete) samples
  observing_bound f samples reach = let b = Reach-Backed reach in (b.2, b.0)
