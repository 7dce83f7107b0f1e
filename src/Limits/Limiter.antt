-- ===== src/Limits/Limiter.antt =====
-- limits.rs, `Limiter` and `Permit`: the subnet that a peer is charged to, and the disabled mode,
-- which keeps no table and hands out permits without an owner.
use pari_ns.Prelude.{
  ℕ, ◌≤◌, ◌≡◌, ◌≢◌, refl, Bool, true, false, Option, none, some, [], arith, if◌then◌else◌,
}
use pari_ns.Net.{IpAddr, v4, v6, is_ipv4, width, canonical_peer, IpNet}
use pari_ns.Limits.Settings.{Settings, validate}
use pari_ns.Limits.Table.{Kind, Denied, State, Outcome, panic, refused, admitted, acquire, release}
use pari_ns.Limits.Invariant.{IsTable}
use pari_ns.Limits.Admission.{Answers, acquire-Answers}

module _ (ip : IpNet) where
  open ip use {Net, net_discrete, new, new_ok, trunc}

  pub record Limiter : Type 0 where
    pub settings : Settings
    pub state : Option (State Net)

  -- `Limiter::new`.
  unfoldable pub create : Settings → Limiter
  create s = record {
    settings = s;
    state = if s.enabled then some (record { entries = []; sweep = [] }) else none;
  }

  abbrev prefix_of : Settings → Bool → ℕ
  prefix_of s true = s.ipv4_prefix
  prefix_of s false = s.ipv6_prefix

  -- `none` is the panic of an `expect`.
  unfoldable pub source : Settings → IpAddr → Option Net
  source s peer =
      let peer' = canonical_peer peer in
      elim (new peer' (prefix_of s (is_ipv4 peer'))) [ none ↦ none | some n ↦ some (trunc n) ]

  -- The owner of a permit: the source and kind whose budget it holds.
  pub record Permit : Type 0 where
    pub owner : Option (Net × Kind)

  pub data Answer : Type 0 where
    fault : Answer
    denied : Denied → Limiter → Answer
    permitted : Permit → Limiter → Answer

  answer_of : Limiter → Net → Kind → Outcome Net → Answer
  answer_of l n kind panic = fault
  answer_of l n kind (refused d st) = denied d (record l { state = some st })
  answer_of l n kind (admitted st) =
      permitted (record { owner = some (n, kind) }) (record l { state = some st })

  acquire_enabled : Limiter → State Net → IpAddr → Kind → ℕ → Answer
  acquire_enabled l st peer kind now = elim (source l.settings peer) [
    | none ↦ fault
    | some n ↦ answer_of l n kind (acquire net_discrete l.settings now kind n st)
  ]

  unfoldable pub acquire_at : Limiter → IpAddr → Kind → ℕ → Answer
  unfolding answer_of acquire_enabled
  acquire_at l peer kind now = elim l.state [
    | none ↦ permitted (record { owner = none }) l
    | some st ↦ acquire_enabled l st peer kind now
  ]

  drop_owner : Limiter → Net → Kind → Option (State Net) → Option Limiter
  drop_owner l n kind none = none
  drop_owner l n kind (some st) = elim (release net_discrete n kind st) [
    | none ↦ none
    | some st' ↦ some (record l { state = some st' })
  ]

  -- `Permit::drop`; `none` is a panic.
  unfoldable pub drop : Permit → Limiter → Option Limiter
  unfolding drop_owner
  drop p l = elim p.owner [ none ↦ some l | some (n, kind) ↦ drop_owner l n kind l.state ]

  -- The table of an enabled limiter is whole.
  abbrev IsWhole : Limiter → Type 0
  IsWhole l = (st : State Net) → l.state ≡ some st → IsTable net_discrete l.settings st

  validate_prefix :
      (s : Settings) (a : IpAddr) → validate s ≡ none → prefix_of s (is_ipv4 a) ≤ width a
  unfolding validate
  validate_prefix s (v4 a) h = ground arith
  validate_prefix s (v6 a) h = ground arith

  source_total :
      (s : Settings) (peer : IpAddr) → validate s ≡ none → (n : Net) × (source s peer ≡ some n)
  unfolding source
  source_total s peer h =
      let a = canonical_peer peer in
      let (n, e, _, _) = new_ok a (prefix_of s (is_ipv4 a)) (validate_prefix s a h) in
      (trunc n, rw (e, source) refl)

  answer_of-ne-fault :
      (l : Limiter) (n : Net) (kind : Kind) (st : State Net) (o : Outcome Net)
      → Answers net_discrete l.settings kind n st o
      → answer_of l n kind o ≢ fault
  unfolding answer_of
  answer_of-ne-fault l n kind st panic h e = h
  answer_of-ne-fault l n kind st (refused d st') h e = cc
  answer_of-ne-fault l n kind st (admitted st') h e = cc

  -- With accepted settings and a whole table, an admission never panics for any peer, time and
  -- kind, be the limiter enabled or not: the subnet of the peer always exists.
  acquire_at-ne-fault :
      (l : Limiter) (peer : IpAddr) (kind : Kind) (now : ℕ)
      → validate l.settings ≡ none
      → IsWhole l
      → acquire_at l peer kind now ≢ fault
  unfolding acquire_at acquire_enabled
  acquire_at-ne-fault l peer kind now v w = go l.state refl
    where
      go :
          (o : Option (State Net))
          → l.state ≡ o
          → elim o as (λ _. Answer) [
            | none ↦ permitted (record { owner = none }) l
            | some st ↦ acquire_enabled l st peer kind now
          ]
            ≢ fault
      go none e = λ f. cc
      go (some st) e =
          let (n, f) = source_total l.settings peer v in
          rw (f, acquire_enabled)
            (answer_of-ne-fault l n kind st _
              (acquire-Answers net_discrete l.settings now kind n st (w st e)))
