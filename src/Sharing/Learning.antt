-- ===== src/Sharing/Learning.antt =====
-- cache/sharing.rs: one answer for the network that was sent, and histories of answers.
use pari_ns.Prelude.{
  ℕ, ◌+◌, ◌-◌, ◌≤◌, ◌<◌, max, ◌≡◌, refl, ◌∙◌, inl, inr, Bool, true, false, Option, none, some, List,
  [], ◌∷◌, ◌++◌, arith, length, length-append, All, All-append, All-map, All-both, Bool-cases, leb,
  ltb, ite, subst,
}
use pari_ns.Net.{is_ipv4, IpNet}
use pari_ns.Ecs.Scope.{Scope, exact_source, learned}
use pari_ns.Sharing.Samples.{Sample, retain, promotable}
use pari_ns.Sharing.Record.{
  SharingConfig, Phase, observing, shared, revoked, Observed, unchanged, revoke, share, sample_of,
  restart, make_room, agree, observe_live, agrees, observe_phase, observe_exact, observe,
  shared_max_age,
}
use pari_ns.Sharing.Apart.{
  Pairwise, All-retain, length-retain-le, Pairwise-retain, Pairwise-push, retain_kept,
}
use pari_ns.Sharing.Evidence.{
  Report, Apart, Trusted, Evidence, Backed, later_Backed, promotable_lem, make_room_lem,
}

module _ (ip : IpNet) {F : Type 0} (print_discrete : Discrete F) (c : SharingConfig) where
  open ip use {Net, addr}

  abbrev Back : Bool → List (Report ip print_discrete) → Option (Phase ip print_discrete) → Type 0
  Back v h p = Backed ip print_discrete c v h p

  module _ (v : Bool) (h : List (Report ip print_discrete)) (now : ℕ) (n : Net) (print : Option F)
      (lifetime : Option ℕ) (family : is_ipv4 (addr n) ≡ v) where
    abbrev report : Report ip print_discrete
    report = record { now = now; scope = exact_source n; print = print; lifetime = lifetime }

    -- Why an answer may be stored for the family `w`.
    abbrev Reason : Bool → Type 0
    Reason w =
        (w ≡ v)
        × (f : F) × (print ≡ some f)
        × (since : ℕ) × (now - since < shared_max_age)
        × Evidence ip print_discrete c f v (report ∷ h) since

    abbrev Sound : Observed ip print_discrete → Type 0
    Sound o = Back v (report ∷ h) o.left × ((w : Bool) → o.seen.scope ≡ learned w → Reason w)

    unchanged-Sound :
        (p : Option (Phase ip print_discrete))
        → Back v (report ∷ h) p
        → Sound (unchanged ip print_discrete (exact_source n) p)
    unfolding unchanged
    unchanged-Sound p b = (b, λ w e. cc)

    revoke-Sound : Sound (revoke ip print_discrete c now (exact_source n))
    unfolding revoke
    revoke-Sound = (tt, λ w e. cc)

    share-Sound :
        (f : F) (since : ℕ)
        → print ≡ some f
        → now - since < shared_max_age
        → Evidence ip print_discrete c f v (report ∷ h) since
        → Sound (share ip print_discrete n (shared f since))
    unfolding share
    share-Sound f since e recent b = (b, λ w q. (learned_eq q ∙ family, f, e, since, recent, b))
      where
        learned_eq :
            {w : Bool}
            → ◌≡◌ {A = Scope ip} (learned (is_ipv4 (addr n))) (learned w)
            → w ≡ is_ipv4 (addr n)
        learned_eq q = cc

    -- What the answer itself adds.
    abbrev Own : F → Sample ip → Type 0
    Own f s = (s.network ≡ n) × Trusted ip print_discrete f v (report ∷ h) s × (now ≤ s.expires)

    sample-Own : (f : F) → print ≡ some f → All (Own f) (sample_of ip print_discrete now n lifetime)
    unfolding sample_of
    sample-Own f e = go lifetime refl
      where
        go : (l : Option ℕ) → lifetime ≡ l → All (Own f) (sample_of ip print_discrete now n l)
        go none q = tt
        go (some l) q = (
          (
            refl,
            (inl (record { from = refl; same = e; fresh = (l, q, refl) }), family),
            omega arith,
          ),
          tt,
        )

    single :
        (l : Option ℕ)
        → Pairwise (Apart ip print_discrete) (sample_of ip print_discrete now n l)
          × (length (sample_of ip print_discrete now n l) ≤ max 1 c.min_networks)
    unfolding sample_of
    single none = (tt, omega arith)
    single (some l) = ((tt, tt), omega arith)

    -- A new observation has this answer at most.
    restart-Back :
        (p : Option (Phase ip print_discrete))
        → Back v (report ∷ h) p
        → Back v
            (report ∷ h)
            (restart ip print_discrete print (sample_of ip print_discrete now n lifetime) p)
    unfolding restart
    restart-Back p b = go print refl
      where
        go :
            (o : Option F)
            → print ≡ o
            → Back v
                (report ∷ h)
                (restart ip print_discrete o (sample_of ip print_discrete now n lifetime) p)
        go none e = b
        go (some f) e = (
          (single lifetime).0,
          All-map (λ s (o : Own f s). o.1) (sample_of ip print_discrete now n lifetime)
              (sample-Own f e),
          (single lifetime).1,
        )

    -- The samples that are still valid at the answer's time.
    abbrev Live : F → List (Sample ip) → Type 0
    Live f live =
        All (λ s. Trusted ip print_discrete f v (report ∷ h) s × (now ≤ s.expires)) live
        × Pairwise (Apart ip print_discrete) live
        × (length live ≤ max 1 c.min_networks)

    -- With room made for the answer's sample, and the sample added.
    added :
        (f : F) (live : List (Sample ip)) (s : Sample ip)
        → Live f live
        → Own f s
        → Live f (make_room ip print_discrete c n live ++ s ∷ [])
    added f live s (trust, apart, few) (same, own, valid) =
        let room =
          subst
            (λ (x : Net).
              let left = make_room ip print_discrete c x live in
              All (λ t. Trusted ip print_discrete f v (report ∷ h) t × (now ≤ t.expires)) left
              × Pairwise (Apart ip print_discrete) left
              × All (λ t. Apart ip print_discrete t s) left
              × (length left + 1 ≤ max 1 c.min_networks))
            same (make_room_lem ip print_discrete c s live _ trust apart few) in
        let left = make_room ip print_discrete c n live in
        (
          All-append _ left (s ∷ []) room.0 ((own, valid), tt),
          Pairwise-push (Apart ip print_discrete) left s room.1 room.2,
          omega (arith, room.3, length-append left (s ∷ [])),
        )

    agree-Sound :
        (f : F) (live sample : List (Sample ip))
        → print ≡ some f
        → Live f live
        → All (Own f) sample
        → Sound (agree ip print_discrete c now n f live sample)
    unfolding agree
    agree-Sound f live [] e l o = unchanged-Sound _ (l.1, All-map (λ s p. p.0) live l.0, l.2)
    agree-Sound f live (s ∷ rest) e l o =
        let samples = make_room ip print_discrete c n live ++ s ∷ [] in
        let k = added f live s l o.0 in
        elim (Bool-cases (promotable ip samples c.min_networks)) [
          | inl yes_ ↦
              rw (yes_, agree)
                (share-Sound f now e (omega arith) (record {
                  samples = samples;
                  enough = (promotable_lem ip print_discrete samples c.min_networks yes_).0;
                  apart = k.1;
                  trusted = All-map (λ s p. p.0) samples k.0;
                  valid = All-map (λ s p. p.1) samples k.0;
                  spread = (promotable_lem ip print_discrete samples c.min_networks yes_).1;
                }))
          | inr not_yet ↦
              rw (not_yet, agree) (unchanged-Sound _ (k.1, All-map (λ s p. p.0) samples k.0, k.2))
        ]

    observe_live-Sound :
        (f : F) (live sample : List (Sample ip))
        → Live f live
        → ((g : F) → print ≡ some g → All (Own g) sample)
        → Sound (observe_live ip print_discrete c now n print sample f live)
    unfolding observe_live
    observe_live-Sound f live sample l own = go print refl live l
      where
        go :
            (o : Option F)
            → print ≡ o
            → (ss : List (Sample ip)) → Live f ss
            → Sound (observe_live ip print_discrete c now n o sample f ss)
        go none e [] k = unchanged-Sound _ (tt, tt, omega arith)
        go none e (s ∷ ss) k = revoke-Sound
        go (some g) e [] k = agree-Sound g [] sample e (tt, tt, omega arith) (own g e)
        go (some g) e (s ∷ ss) k =
            elim (print_discrete f g)
              as (λ d. Sound (
                ite d (agree ip print_discrete c now n g (s ∷ ss) sample)
                  (revoke ip print_discrete c now (exact_source n)))) [
                    | yes q ↦
                        agree-Sound g (s ∷ ss) sample e (subst (λ x. Live x (s ∷ ss)) q k) (own g e)
                    | no _ ↦ revoke-Sound
                  ]

    observe_phase-Sound :
        (p : Phase ip print_discrete)
        → Back v h (some p)
        → Sound (
            observe_phase ip print_discrete c now n print
              (sample_of ip print_discrete now n lifetime)
              p)
    unfolding observe_phase
    observe_phase-Sound (revoked until) b = elim (Bool-cases (ltb now until)) [
      | inl e ↦ rw (e, observe_phase) (unchanged-Sound (some (revoked until)) tt)
      | inr e ↦ rw (e, observe_phase) (unchanged-Sound _ (restart-Back (some (revoked until)) tt))
    ]
    observe_phase-Sound (shared f since) b =
        let b' = later_Backed ip print_discrete c v report h (some (shared f since)) b in
        elim (Bool-cases (leb shared_max_age (now - since))) [
          | inl e ↦
              rw (e, observe_phase) (unchanged-Sound _ (restart-Back (some (shared f since)) b'))
          | inr e ↦ elim (Bool-cases (agrees ip print_discrete print f)) [
            | inl same ↦
                rw (e, same, observe_phase)
                  (share-Sound f since (agrees_eq print same) (omega (arith, recent e)) b')
            | inr other ↦ rw (e, other, observe_phase) revoke-Sound
          ]
        ]
      where
        agrees_eq : (o : Option F) → agrees ip print_discrete o f ≡ true → o ≡ some f
        agrees_eq none q = cc
        agrees_eq (some g) q = ground arith

        recent : leb shared_max_age (now - since) ≡ false → now - since < shared_max_age
        recent q = ground arith
    observe_phase-Sound (observing f samples) b =
        let b' = later_Backed ip print_discrete c v report h (some (observing f samples)) b in
        let live = retain (λ (s : Sample ip). ltb now s.expires) samples in
        observe_live-Sound f live (sample_of ip print_discrete now n lifetime)
          (
            All-both _ _ live (All-retain _ _ samples b'.1)
                (All-map (λ s e. later_than s e) live (retain_kept _ samples)),
            Pairwise-retain (Apart ip print_discrete) _ samples b'.0,
            omega (arith, b'.2, length-retain-le (λ (s : Sample ip). ltb now s.expires) samples),
          )
          sample-Own
      where
        later_than : (s : Sample ip) → ltb now s.expires ≡ true → now ≤ s.expires
        later_than s e = ground arith

    pub observe_exact-Sound :
        (p : Option (Phase ip print_discrete))
        → Back v h p
        → Sound (observe ip print_discrete c now (exact_source n) print lifetime p)
    unfolding observe observe_exact
    observe_exact-Sound none b = unchanged-Sound _ (restart-Back none tt)
    observe_exact-Sound (some p) b = observe_phase-Sound p b
