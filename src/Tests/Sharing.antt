-- ===== src/Tests/Sharing.antt =====
-- One class of answers over the concrete subnets of `Tests/Cidr.antt`, with numbers for
-- fingerprints.
use pari_ns.Prelude.{
  ℕ, ◌-◌, ◌≤◌, ◌<◌, ◌≡◌, refl, true, false, Option, none, some, [], ◌∷◌, arith, ℕ_discrete,
}
use pari_ns.Net.{v4}
use pari_ns.Ecs.Scope.{exact_source, learned}
use pari_ns.Sharing.Samples.{
  retain, push_second, last_first, swap_remove, oldest_from, oldest, span, differs, any_differs,
  promotable,
}
use pari_ns.Sharing.Apart.{Pairwise}
use pari_ns.Sharing.Record.{
  SharingConfig, Phase, observing, unchanged, revoke, share, sample_of, restart, make_room, agree,
  observe_live, observe_phase, observe_exact, contradict, observe, shared_max_age,
}
use pari_ns.Sharing.Evidence.{Report, Evidence, Apart}
use pari_ns.Sharing.History
use pari_ns.Sharing.History.{Reach, start, observes, told}
use pari_ns.Sharing.Revocation
use pari_ns.Sharing.Revocation.{run}
use pari_ns.Tests.Cidr.{cidr, Cidr-discrete, new, trunc, contains}

program : Unit {0}
unfolding cidr Cidr-discrete new trunc contains ℕ_discrete retain push_second last_first swap_remove
    oldest_from oldest span differs any_differs promotable unchanged revoke share sample_of restart
    make_room agree observe_live observe_phase observe_exact contradict observe run
program = tt

abbrev config : SharingConfig
config = record { min_networks = 2; revoke_cooldown_secs = 60 }

-- 10.0.0.0/24 and 192.0.2.0/24.
ten : cidr.Net
unfolding cidr
ten = record { base = v4 0x0a00_0000; len = 24 }

test_net : cidr.Net
unfolding cidr
test_net = record { base = v4 0xc000_0200; len = 24 }

abbrev first : Report cidr ℕ_discrete
first = record { now = 0; scope = exact_source ten; print = some 7; lifetime = some 300 }

abbrev record_of_first : Option (Phase cidr ℕ_discrete)
record_of_first = some (observing 7 (record { network = ten; expires = 300 } ∷ []))

first_left : (told cidr ℕ_discrete config first none).left ≡ record_of_first
unfolding program ten
first_left = refl

reached :
    Reach cidr ℕ_discrete config true (first ∷ []) (told cidr ℕ_discrete config first none).left
unfolding program ten
reached = observes first refl start

-- The second network agrees.
second_learned :
    (observe cidr ℕ_discrete config 1
      (exact_source test_net)
      (some 7)
      (some 300)
      (told cidr ℕ_discrete config first none).left).seen.scope
    ≡ learned true
unfolding program ten test_net
second_learned = refl

learned-Evidence_example :
    (true ≡ true)
    × (f : ℕ) × (some 7 ≡ some f)
    × (since : ℕ) × (1 - since < shared_max_age)
    × Evidence cidr ℕ_discrete config f true
        (record { now = 1; scope = exact_source test_net; print = some 7; lifetime = some 300 }
          ∷ first
          ∷ [])
        since
unfolding program test_net
learned-Evidence_example =
    History.learned-Evidence cidr ℕ_discrete config 1 test_net (some 7) (some 300) true reached refl
      second_learned

observing_bound_example :
    (1 ≤ 2) × Pairwise (Apart cidr ℕ_discrete) (record { network = ten; expires = 300 } ∷ [])
unfolding program ten
observing_bound_example =
    History.observing_bound cidr ℕ_discrete config 7 (record { network = ten; expires = 300 } ∷ [])
      reached

-- The second network contradicts the first, and a third answer comes within the minute.
abbrev other : Report cidr ℕ_discrete
other = record { now = 1; scope = exact_source test_net; print = some 8; lifetime = some 300 }

abbrev third : Report cidr ℕ_discrete
third = record { now = 2; scope = exact_source test_net; print = some 7; lifetime = some 300 }

contradicted : (told cidr ℕ_discrete config other record_of_first).seen.is_revoked ≡ true
unfolding program ten test_net
contradicted = refl

revoked-told_example :
    let left = (told cidr ℕ_discrete config other record_of_first).left in
    let o = told cidr ℕ_discrete config third (run cidr ℕ_discrete config (third ∷ []) left) in
    (o.left ≡ left) × (o.seen.scope ≡ third.scope) × (o.seen.is_revoked ≡ false)
revoked-told_example =
    Revocation.revoked-told cidr ℕ_discrete config other third (third ∷ []) record_of_first
      contradicted (omega arith) (omega arith)
