-- ===== src/Flight/History.antt =====
-- flight.rs: every step, and so every history, keeps the invariant.
use pari_ns.Prelude.{
  ℕ, ◌+◌, ◌-◌, ◌≤◌, ◌<◌, ◌≡◌, refl, sym, ◌∙◌, ap, false, some_eq, leb, Bool-cases, Option-cases,
  arith, inl, inr,
}
use pari_ns.Prelude.Assoc.{lookup}
use pari_ns.Flight.{
  CoalescingConfig, Work, unlocked, joining, Flights, is_alive, new_hold, leave, drop_hold,
  find_group, join_group, Step, bypasses, locks, finds, joins, leaves, drops, goes, ends, Steps,
  stop, next_step, new_flights,
}
use pari_ns.Flight.Works.{IsFlights, Changes, change-IsFlights, put-IsFlights, set_work_rule}
use pari_ns.Flight.Moves.{
  leave-Changes, drop-Changes, bypass-IsFlights, reap-IsFlights, lead-IsFlights,
}

module _ {K : Type 0} (dec : Discrete K) (c : CoalescingConfig) where
  module _ (limits : (1 ≤ c.max_waiters) × (c.max_waiters ≤ 65536)) where
    find_group-IsFlights :
        (k : K) (st : Flights K) → IsFlights dec c st → IsFlights dec c (find_group dec c k st)
    unfolding find_group
    find_group-IsFlights k st inv = elim (Option-cases (lookup dec k st.groups)) [
      | inl absent ↦
          rw (absent, find_group) (lead-IsFlights dec c limits k st inv (λ w h. absurd (cc)))
      | inr (w, here) ↦
          rw (here, find_group)
            (elim (Bool-cases (is_alive (st.works w))) [
              | inr gone ↦ rw gone (
                  lead-IsFlights dec c limits k st inv
                    (λ v h. ap (λ u. is_alive (st.works u)) (some_eq (sym h ∙ here)) ∙ gone))
              | inl alive ↦ rw alive (
                  change-IsFlights dec c st w
                    (record (st.works w) { upgraded = (st.works w).upgraded + 1 }) (joining w) inv
                    (record {
                      same_key = refl;
                      counted = inv.counted w;
                      within = inv.within w;
                      was_alive = λ a. alive;
                      was_running = λ r. r;
                    })
                    (λ v e.
                      set_work_rule (λ z. 0 < z.upgraded) w v _ st.works (λ same. omega arith)
                        (λ ne. absurd (ne (ground arith)))))
            ])
    ]

    hold-Changes :
        (x : Work K)
        → 0 < x.upgraded
        → x.holds ≡ x.held
        → leb c.max_waiters x.holds ≡ false
        → Changes dec c x (new_hold (record x { upgraded = x.upgraded - 1 }))
    unfolding new_hold
    hold-Changes x u e space = record {
      same_key = refl;
      counted = ground arith;
      within = ground arith;
      was_alive = λ a. ground arith;
      was_running = λ r. r;
    }

    join_group-IsFlights :
        (w : ℕ) (st : Flights K)
        → st.lock ≡ joining w
        → IsFlights dec c st
        → IsFlights dec c (join_group dec c w st)
    unfolding join_group
    join_group-IsFlights w st locked inv =
        elim (Bool-cases (leb c.max_waiters (st.works w).holds)) [
          | inl full ↦ rw full (
              change-IsFlights dec c st w
                (record (st.works w) { upgraded = (st.works w).upgraded - 1 }) unlocked inv
                (record {
                  same_key = refl;
                  counted = inv.counted w;
                  within = inv.within w;
                  was_alive = λ a. ground arith;
                  was_running = λ r. r;
                })
                (λ v e. cc))
          | inr space ↦ rw space (
              change-IsFlights dec c st w
                (new_hold (record (st.works w) { upgraded = (st.works w).upgraded - 1 })) unlocked
                inv (hold-Changes (st.works w) (inv.locked w locked) (inv.counted w) space)
                (λ v e. cc))
        ]

    leave-upgraded : (x : Work K) → (leave x).0.upgraded ≡ x.upgraded
    unfolding leave
    leave-upgraded x = ground arith

    drop-upgraded : (x : Work K) → (drop_hold x).upgraded ≡ x.upgraded
    unfolding drop_hold
    drop-upgraded x = refl

    new_flights-IsFlights : IsFlights dec c new_flights
    unfolding lookup
    new_flights-IsFlights = record {
      counted = λ w. refl;
      within = λ w. omega arith;
      fresh = λ w h. refl;
      registered = λ w k e alive r. cc;
      room = omega arith;
      locked = λ w e. cc;
    }

    Step-IsFlights : (st t : Flights K) → IsFlights dec c st → Step dec c st t → IsFlights dec c t
    Step-IsFlights st t inv bypasses = bypass-IsFlights dec c limits st inv
    Step-IsFlights st t inv (locks k e on) = reap-IsFlights dec c limits k st inv
    Step-IsFlights st t inv (finds k e) = find_group-IsFlights k st inv
    Step-IsFlights st t inv (joins w e) = join_group-IsFlights w st e inv
    Step-IsFlights st t inv (leaves w h) =
        put-IsFlights dec c st w _ inv
          (leave-Changes dec c limits (st.works w) h (inv.counted w) (inv.within w))
          (leave-upgraded (st.works w))
    Step-IsFlights st t inv (drops w h) =
        put-IsFlights dec c st w _ inv
          (drop-Changes dec c limits (st.works w) h (inv.counted w) (inv.within w))
          (drop-upgraded (st.works w))
    Step-IsFlights st t inv (goes w h) =
        put-IsFlights dec c st w _ inv
          (record {
            same_key = refl;
            counted = inv.counted w;
            within = inv.within w;
            was_alive = λ a. ground arith;
            was_running = λ r. r;
          })
          refl
    Step-IsFlights st t inv (ends w h) =
        put-IsFlights dec c st w _ inv
          (record {
            same_key = refl;
            counted = inv.counted w;
            within = inv.within w;
            was_alive = λ a. a;
            was_running = λ r. cc;
          })
          refl

    pub Steps-IsFlights : (t : Flights K) → Steps dec c new_flights t → IsFlights dec c t
    Steps-IsFlights t stop = new_flights-IsFlights
    Steps-IsFlights u (next_step {t} h e) = Step-IsFlights t u (Steps-IsFlights t h) e
