-- ===== src/Flight/Single.antt =====
-- flight.rs: what the sharing of work promises, over any interleaving of its steps.
use pari_ns.Prelude.{
  ℕ, ◌≤◌, ◌<◌, ◌≡◌, ◌↔◌, refl, sym, ◌∙◌, true, false, some, some_eq, length, ltb, Bool-cases, arith,
  inl, inr,
}
use pari_ns.Flight.{CoalescingConfig, Flights, is_alive, leave, Steps, new_flights}
use pari_ns.Flight.Works.{IsFlights}
use pari_ns.Flight.History.{Steps-IsFlights}

module _ {K : Type 0} (dec : Discrete K) (c : CoalescingConfig)
    (limits : (1 ≤ c.max_waiters) × (c.max_waiters ≤ 65536)) (t : Flights K)
    (history : Steps dec c new_flights t) where
  invariant : IsFlights dec c t
  invariant = Steps-IsFlights dec c limits t history

  -- With accepted limits, after any steps of any threads from the empty registry: a counter is the
  -- number of the holds that are counted, so that none wraps around; no work has more than
  -- `max_waiters` of them, and at most `max_groups` groups are registered.
  pub history_bound :
      (w : ℕ)
      → ((t.works w).holds ≡ (t.works w).held)
        × ((t.works w).held ≤ c.max_waiters)
        × (length t.groups ≤ c.max_groups)
  history_bound w = (invariant.counted w, invariant.within w, invariant.room)

  -- With accepted limits, after any steps of any threads from the empty registry, two works of one
  -- key that are unfinished and that someone refers to are the same: no request of a key is worked
  -- on twice at a time.
  pub history_single :
      (v w : ℕ) (k : K)
      → (t.works v).key ≡ some k
      → (t.works w).key ≡ some k
      → is_alive (t.works v) ≡ true
      → is_alive (t.works w) ≡ true
      → (t.works v).is_done ≡ false
      → (t.works w).is_done ≡ false
      → v ≡ w
  history_single v w k e f a b r q =
      some_eq (sym (invariant.registered v k e a r) ∙ invariant.registered w k f b q)

  -- With accepted limits, after any steps of any threads from the empty registry: a hold that
  -- leaves is the last exactly where it is the only one that is counted, and a counted hold is left
  -- in every case.
  pub leave_last :
      (w : ℕ)
      → 0 < (t.works w).held
      → (((leave (t.works w)).1 ≡ true) ↔ ((t.works w).held ≡ 1)) × (0 < (leave (t.works w)).0.held)
  unfolding leave
  leave_last w h = elim (Bool-cases (ltb 1 (t.works w).holds)) [
    | inl more ↦ rw more (
      (λ e. cc, λ e. absurd (ground (arith, invariant.counted w))),
      ground (arith, invariant.counted w),
    )
    | inr last ↦ rw last ((λ e. ground (arith, invariant.counted w), λ e. refl), h)
  ]
