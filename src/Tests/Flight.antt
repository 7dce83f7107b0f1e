-- ===== src/Tests/Flight.antt =====
-- Two requests of one key share a work, and one of another key starts its own.
use pari_ns.Prelude.{ℕ, ◌≤◌, ◌<◌, ◌≡◌, ◌↔◌, refl, true, false, length, arith, ℕ_discrete}
use pari_ns.Prelude.Assoc.{lookup, insert}
use pari_ns.Flight.{
  CoalescingConfig, Flights, set_work, new_hold, leave, drop_hold, live_groups, bypass, reap, lead,
  find_group, join_group, locks, finds, joins, Steps, stop, next_step, new_flights,
}
use pari_ns.Flight.Single

program : Unit {0}
unfolding ℕ_discrete lookup insert set_work new_hold leave drop_hold live_groups bypass reap lead
    find_group join_group
program = tt

abbrev config : CoalescingConfig
config = record { enabled = true; max_groups = 2; max_waiters = 2 }

abbrev led : Flights ℕ
led = find_group ℕ_discrete config 7 (reap 7 new_flights)

abbrev shared : Flights ℕ
shared = join_group ℕ_discrete config 0 (find_group ℕ_discrete config 7 (reap 7 led))

history : Steps ℕ_discrete config new_flights shared
unfolding program
history =
    next_step
      (next_step
        (next_step (next_step (next_step stop (locks 7 refl refl)) (finds 7 refl))
          (locks 7 refl refl))
        (finds 7 refl))
      (joins 0 refl)

history_bound_example :
    ((shared.works 0).holds ≡ (shared.works 0).held)
    × ((shared.works 0).held ≤ 2)
    × (length shared.groups ≤ 2)
history_bound_example =
    Single.history_bound ℕ_discrete config (omega arith, omega arith) shared history 0

history_single_example : ◌≡◌ {A = ℕ} 0 0
unfolding program
history_single_example =
    Single.history_single ℕ_discrete config (omega arith, omega arith) shared history 0 0 7 refl
      refl refl refl refl refl

leave_last_example :
    (((leave (shared.works 0)).1 ≡ true) ↔ ((shared.works 0).held ≡ 1))
    × (0 < (leave (shared.works 0)).0.held)
unfolding program
leave_last_example =
    Single.leave_last ℕ_discrete config (omega arith, omega arith) shared history 0 (omega arith)

-- Two holds: the first that leaves is not the last.
leaves_shared : (leave (shared.works 0)).1 ≡ false
unfolding program
leaves_shared = refl
