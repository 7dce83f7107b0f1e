-- ===== src/Sharing/Revocation.antt =====
-- cache/sharing.rs: a record whose answers contradicted each other, and its cooldown.
use pari_ns.Prelude.{
  ℕ, ◌+◌, ◌*◌, ◌<◌, ◌≡◌, refl, inl, inr, true, false, Option, none, some, List, [], ◌∷◌, ltb, arith,
  Bool-cases, ite,
}
use pari_ns.Net.{IpNet}
use pari_ns.Ecs.Scope.{Scope, no_ecs, privacy, network, exact_source, learned}
use pari_ns.Sharing.Samples.{Sample}
use pari_ns.Sharing.Record.{
  SharingConfig, Phase, observing, shared, revoked, Observed, unchanged, revoke, share, contradict,
  observe, observe_exact, observe_phase, observe_live, agree, second,
}
use pari_ns.Sharing.Evidence.{Report}

module _ (ip : IpNet) {F : Type 0} (print_discrete : Discrete F) (c : SharingConfig) where
  open ip use {Net, addr, prefix_len}

  abbrev Kept : Type 0
  Kept = Option (Phase ip print_discrete)

  abbrev told : Report ip print_discrete → Kept → Observed ip print_discrete
  told r p = observe ip print_discrete c r.now r.scope r.print r.lifetime p

  module _ (now : ℕ) where
    abbrev until : ℕ
    until = now + c.revoke_cooldown_secs * second

    -- An observation that revokes leaves the record revoked for the cooldown.
    abbrev Cooled : Observed ip print_discrete → Type 0
    Cooled o = o.seen.is_revoked ≡ true → o.left ≡ some (revoked until)

    unchanged-Cooled : (sc : Scope ip) (p : Kept) → Cooled (unchanged ip print_discrete sc p)
    unfolding unchanged
    unchanged-Cooled sc p e = cc

    revoke-Cooled : (sc : Scope ip) → Cooled (revoke ip print_discrete c now sc)
    unfolding revoke
    revoke-Cooled sc e = refl

    share-Cooled : (n : Net) (p : Phase ip print_discrete) → Cooled (share ip print_discrete n p)
    unfolding share
    share-Cooled n p e = cc

    agree-Cooled :
        (n : Net) (f : F) (live sample : List (Sample ip))
        → Cooled (agree ip print_discrete c now n f live sample)
    unfolding agree unchanged share
    agree-Cooled n f live [] = λ e. cc
    agree-Cooled n f live (s ∷ ss) = λ e. ground arith

    observe_live-Cooled :
        (n : Net) (print : Option F) (sample : List (Sample ip)) (f : F) (live : List (Sample ip))
        → Cooled (observe_live ip print_discrete c now n print sample f live)
    unfolding observe_live
    observe_live-Cooled n none sample f [] = unchanged-Cooled _ _
    observe_live-Cooled n none sample f (s ∷ ss) = revoke-Cooled _
    observe_live-Cooled n (some g) sample f [] = agree-Cooled n g [] sample
    observe_live-Cooled n (some g) sample f (s ∷ ss) =
        elim (print_discrete f g)
          as (λ d. Cooled (
            ite d (agree ip print_discrete c now n g (s ∷ ss) sample)
              (revoke ip print_discrete c now (exact_source n)))) [
                | yes _ ↦ agree-Cooled n g (s ∷ ss) sample
                | no _ ↦ revoke-Cooled (exact_source n)
              ]

    observe_phase-Cooled :
        (n : Net) (print : Option F) (sample : List (Sample ip)) (p : Phase ip print_discrete)
        → Cooled (observe_phase ip print_discrete c now n print sample p)
    unfolding observe_phase unchanged share revoke
    observe_phase-Cooled n print sample (revoked t) = λ e. ground arith
    observe_phase-Cooled n print sample (shared f since) = λ e. ground arith
    observe_phase-Cooled n print sample (observing f samples) =
        observe_live-Cooled n print sample f _

    contradict-Cooled : (n : Net) (p : Kept) → Cooled (contradict ip print_discrete c now n p)
    unfolding contradict unchanged revoke
    contradict-Cooled n none = λ e. cc
    contradict-Cooled n (some (observing f ss)) = λ e. refl
    contradict-Cooled n (some (shared f since)) = λ e. refl
    contradict-Cooled n (some (revoked t)) = λ e. ground arith

    observe-Cooled :
        (sc : Scope ip) (print : Option F) (lifetime : Option ℕ) (p : Kept)
        → Cooled (observe ip print_discrete c now sc print lifetime p)
    unfolding observe observe_exact
    observe-Cooled (exact_source n) print lifetime none = unchanged-Cooled _ _
    observe-Cooled (exact_source n) print lifetime (some p) = observe_phase-Cooled n print _ p
    observe-Cooled (network n) print lifetime p = elim (Bool-cases (ltb 0 (prefix_len n))) [
      | inl e ↦ rw (e, observe) (contradict-Cooled n p)
      | inr e ↦ rw (e, observe) (unchanged-Cooled (network n) p)
    ]
    observe-Cooled no_ecs print lifetime p = unchanged-Cooled _ _
    observe-Cooled (privacy w) print lifetime p = unchanged-Cooled _ _
    observe-Cooled (learned w) print lifetime p = unchanged-Cooled _ _

  -- The answers of a class, one after another.
  unfoldable pub run : List (Report ip print_discrete) → Kept → Kept
  run [] p = p
  run (r ∷ rs) p = run rs (told r p).left

  -- All answers come before a moment.
  abbrev pub Before : ℕ → List (Report ip print_discrete) → Type 0
  Before t [] = Unit
  Before t (r ∷ rs) = (r.now < t) × Before t rs

  cooling :
      (until now : ℕ) (sc : Scope ip) (print : Option F) (lifetime : Option ℕ)
      → now < until
      → observe ip print_discrete c now sc print lifetime (some (revoked until))
        ≡ unchanged ip print_discrete sc (some (revoked until))
  unfolding observe observe_exact observe_phase contradict
  cooling until now (exact_source n) print lifetime h = ground arith
  cooling until now (network n) print lifetime h = ground arith
  cooling until now no_ecs print lifetime h = refl
  cooling until now (privacy w) print lifetime h = refl
  cooling until now (learned w) print lifetime h = refl

  run-revoked :
      (until : ℕ) (rs : List (Report ip print_discrete))
      → Before until rs
      → run rs (some (revoked until)) ≡ some (revoked until)
  unfolding run unchanged
  run-revoked until [] b = refl
  run-revoked until (r ∷ rs) b =
      rw (cooling until r.now r.scope r.print r.lifetime b.0, unchanged) (run-revoked until rs b.1)

  -- Once an answer revokes what was learned, no answer changes the record or is stored under
  -- another scope than its own until the cooldown has passed, whatever answers come in between.
  pub revoked-told :
      (r next : Report ip print_discrete) (rs : List (Report ip print_discrete)) (p : Kept)
      → (told r p).seen.is_revoked ≡ true
      → Before (r.now + c.revoke_cooldown_secs * second) rs
      → next.now < r.now + c.revoke_cooldown_secs * second
      → let o = told next (run rs (told r p).left) in
        (o.left ≡ (told r p).left) × (o.seen.scope ≡ next.scope) × (o.seen.is_revoked ≡ false)
  revoked-told r next rs p e b h =
      let cooled = observe-Cooled r.now r.scope r.print r.lifetime p e in
      rw (cooled, run-revoked _ rs b, cooling _ next.now next.scope next.print next.lifetime h)
        (unfold unchanged in (refl, refl, refl))
