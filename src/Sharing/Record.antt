-- ===== src/Sharing/Record.antt =====
-- cache/sharing.rs, `Table::observe` on the record of one class: what the table holds for the
-- answer's key and family before and after the answer, and the scope that it is stored under.
use pari_ns.Prelude.{
  ℕ, ◌+◌, ◌-◌, ◌*◌, Bool, true, false, not, Option, none, some, List, [], ◌∷◌, ◌++◌, ltb, leb,
  if◌then◌else◌, ite, length,
}
use pari_ns.Net.{is_ipv4, IpNet}
use pari_ns.Ecs.Scope.{Scope, no_ecs, privacy, network, exact_source, learned}
use pari_ns.Sharing.Samples.{Sample, retain, swap_remove, overlaps, oldest, promotable}

pub record SharingConfig : Type 0 where
  pub min_networks : ℕ
  pub revoke_cooldown_secs : ℕ

abbrev pub second : ℕ
second = 1000000000

abbrev pub shared_max_age : ℕ
shared_max_age = 3600 * second

module _ (ip : IpNet) {F : Type 0} (print_discrete : Discrete F) where
  open ip use {Net, addr, prefix_len}

  pub data Phase : Type 0 where
    observing : F → List (Sample ip) → Phase
    shared : F → ℕ → Phase
    revoked : ℕ → Phase

  pub record Observation : Type 0 where
    pub scope : Scope ip
    pub is_revoked : Bool

  -- The record after the answer, none where the table holds none, and the answer's observation.
  pub record Observed : Type 0 where
    pub left : Option Phase
    pub seen : Observation

  unfoldable pub unchanged : Scope ip → Option Phase → Observed
  unchanged sc p = record { left = p; seen = record { scope = sc; is_revoked = false } }

  unfoldable pub revoke : SharingConfig → ℕ → Scope ip → Observed
  revoke c now sc = record {
    left = some (revoked (now + c.revoke_cooldown_secs * second));
    seen = record { scope = sc; is_revoked = true };
  }

  unfoldable pub share : Net → Phase → Observed
  share n p = record {
    left = some p;
    seen = record { scope = learned (is_ipv4 (addr n)); is_revoked = false };
  }

  unfoldable pub sample_of : ℕ → Net → Option ℕ → List (Sample ip)
  sample_of now n none = []
  sample_of now n (some lifetime) = record { network = n; expires = now + lifetime } ∷ []

  -- A new observation starts where the answer has a fingerprint.
  unfoldable pub restart : Option F → List (Sample ip) → Option Phase → Option Phase
  restart none sample p = p
  restart (some f) sample p = some (observing f sample)

  -- Room for one sample more: those that overlap the network go, and the oldest where there are
  -- still enough.
  unfoldable pub make_room : SharingConfig → Net → List (Sample ip) → List (Sample ip)
  make_room c n samples =
      let apart = retain (λ s. not (overlaps ip n s.network)) samples in
      if leb c.min_networks (length apart) then swap_remove (oldest ip apart) apart else apart

  -- The answer agrees with the samples that are left.
  unfoldable pub agree :
      SharingConfig → ℕ → Net → F → List (Sample ip) → List (Sample ip) → Observed
  agree c now n f live [] = unchanged (exact_source n) (some (observing f live))
  agree c now n f live (s ∷ _) =
      let samples = make_room c n live ++ s ∷ [] in
      if promotable ip samples c.min_networks
      then share n (shared f now)
      else unchanged (exact_source n) (some (observing f samples))

  abbrev pub is_empty : List (Sample ip) → Bool
  is_empty [] = true
  is_empty (s ∷ ss) = false

  -- `Phase::Observing`, on the samples that are still valid.
  unfoldable pub observe_live :
      SharingConfig → ℕ → Net → Option F → List (Sample ip) → F → List (Sample ip) → Observed
  observe_live c now n none sample f live =
      if is_empty live
      then unchanged (exact_source n) (some (observing f live))
      else revoke c now (exact_source n)
  observe_live c now n (some print) sample f live =
      if is_empty live
      then agree c now n print live sample
      else ite (print_discrete f print) (agree c now n print live sample)
          (revoke c now (exact_source n))

  abbrev pub agrees : Option F → F → Bool
  agrees none f = false
  agrees (some print) f = ite (print_discrete print f) true false

  unfoldable pub observe_phase :
      SharingConfig → ℕ → Net → Option F → List (Sample ip) → Phase → Observed
  observe_phase c now n print sample (revoked until) =
      if ltb now until
      then unchanged (exact_source n) (some (revoked until))
      else unchanged (exact_source n) (restart print sample (some (revoked until)))
  observe_phase c now n print sample (shared f since) =
      if leb shared_max_age (now - since)
      then unchanged (exact_source n) (restart print sample (some (shared f since)))
      else if agrees print f
      then share n (shared f since)
      else revoke c now (exact_source n)
  observe_phase c now n print sample (observing f samples) =
      observe_live c now n print sample f (retain (λ s. ltb now s.expires) samples)

  -- An answer for exactly the network that was sent.
  unfoldable pub observe_exact :
      SharingConfig → ℕ → Net → Option F → List (Sample ip) → Option Phase → Observed
  observe_exact c now n print sample none = unchanged (exact_source n) (restart print sample none)
  observe_exact c now n print sample (some p) = observe_phase c now n print sample p

  -- An explicit nonzero scope contradicts what was learned.
  unfoldable pub contradict : SharingConfig → ℕ → Net → Option Phase → Observed
  contradict c now n none = unchanged (network n) none
  contradict c now n (some (revoked until)) =
      if ltb now until
      then unchanged (network n) (some (revoked until))
      else revoke c now (network n)
  contradict c now n (some (observing f samples)) = revoke c now (network n)
  contradict c now n (some (shared f since)) = revoke c now (network n)

  -- `Table::observe`.
  unfoldable pub observe :
      SharingConfig → ℕ → Scope ip → Option F → Option ℕ → Option Phase → Observed
  observe c now (exact_source n) print lifetime p =
      observe_exact c now n print (sample_of now n lifetime) p
  observe c now (network n) print lifetime p =
      if ltb 0 (prefix_len n) then contradict c now n p else unchanged (network n) p
  observe c now no_ecs print lifetime p = unchanged no_ecs p
  observe c now (privacy v) print lifetime p = unchanged (privacy v) p
  observe c now (learned v) print lifetime p = unchanged (learned v) p
