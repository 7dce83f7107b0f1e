-- ===== src/Tests/Refresh.antt =====
-- A refresh owner with numbers for keys.
use pari_ns.Prelude.{◌≡◌, ◌≤◌, refl, arith, true, false, some, [], ◌∷◌, count, ℕ_discrete}
use pari_ns.Prelude.Assoc.{lookup, insert, remove}
use pari_ns.Sharing.Samples.{retain}
use pari_ns.Refresh.Owner.{
  prefetch, fill, PrefetchConfig, capacity_of, State, default, completion, tidy, pop_starts,
  rejection, count_rejection, start, decide, schedule, cancel, without, first_until, make_room,
  finish,
}
use pari_ns.Refresh.Slots.{ended, Steps, begin, schedules, finishes, IsOwner}
use pari_ns.Refresh.Life

program : Unit {0}
unfolding ℕ_discrete capacity_of tidy pop_starts rejection count_rejection start decide schedule
    cancel without first_until make_room finish ended retain count lookup insert remove
program = tt

-- One refresh at a time.
abbrev config : PrefetchConfig
config = record { max_inflight = 1; rate_per_sec = 4; backoff_secs = 30 }

abbrev St : Type 0
St = State ℕ_discrete

one : St
unfolding program
one = (schedule ℕ_discrete config prefetch 5 (some 7) (default ℕ_discrete)).1

one_running : Steps ℕ_discrete config (default ℕ_discrete) [] one (7 ∷ [])
unfolding program one
one_running = schedules prefetch 5 (some 7) (default ℕ_discrete) [] begin

-- Another key finds no room.
second_rejected : (schedule ℕ_discrete config prefetch 6 (some 8) one).1.rejected_budget ≡ 1
unfolding program one
second_rejected = refl

failed : St
unfolding program one
failed = finish ℕ_discrete (completion ℕ_discrete config 7) (some false) 9 one

failed_ended : Steps ℕ_discrete config (default ℕ_discrete) [] failed []
unfolding program one failed
failed_ended = finishes 7 (some false) 9 one (7 ∷ []) (omega arith) one_running

-- The key is refused until its backoff is over.
retry_refused : (schedule ℕ_discrete config prefetch 10 (some 7) failed).1.rejected_cooldown ≡ 1
unfolding program one failed
retry_refused = refl

history-IsOwner_example : IsOwner ℕ_discrete config one (7 ∷ [])
history-IsOwner_example = Life.history-IsOwner ℕ_discrete config one (7 ∷ []) one_running

stopped : St
unfolding program one
stopped = cancel ℕ_discrete one

asked : St
unfolding program one stopped
asked = (schedule ℕ_discrete config fill 20 (some 9) stopped).1

asked_after : Steps ℕ_discrete config stopped (7 ∷ []) asked (7 ∷ [])
unfolding program one stopped asked
asked_after = schedules fill 20 (some 9) stopped (7 ∷ []) begin

stopped_closed : stopped.closed ≡ true
unfolding program one stopped
stopped_closed = refl

Steps-closed_example : (asked.closed ≡ true) × (asked.scheduled ≡ stopped.scheduled) × (1 ≤ 1)
Steps-closed_example =
    Life.Steps-closed ℕ_discrete config stopped (7 ∷ []) asked (7 ∷ []) stopped_closed asked_after
