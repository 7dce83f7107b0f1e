-- ===== src/Flight/Moves.antt =====
-- flight.rs: the steps that leave, register and drop works keep the invariant.
use pari_ns.Prelude.{
  ℕ, ◌+◌, ◌≤◌, ◌<◌, ◌≡◌, refl, sym, ◌∙◌, ap, subst, Bool, true, false, not, ◌&&◌, Option, none,
  some, some_eq, ite, List, [], ◌∷◌, ltb, leb, length, Bool-cases, arith, inl, inr,
}
use pari_ns.Prelude.Assoc.{lookup, insert, lookup-insert_rule, lookup-insert_self}
use pari_ns.Flight.{
  CoalescingConfig, Work, Stage, unlocked, joining, Flights, is_alive, new_work, new_hold, leave,
  drop_hold, live_groups, put, bypass, reap, lead,
}
use pari_ns.Flight.Works.{IsFlights, Changes, set_work_rule}

module _ {K : Type 0} (dec : Discrete K) (c : CoalescingConfig) where
  module _ (limits : (1 ≤ c.max_waiters) × (c.max_waiters ≤ 65536)) where
    pub leave-Changes :
        (x : Work K)
        → 0 < x.held
        → x.holds ≡ x.held
        → x.held ≤ c.max_waiters
        → Changes dec c x (leave x).0
    unfolding leave
    leave-Changes x h e m = elim (Bool-cases (ltb 1 x.holds)) [
      | inl more ↦ rw more (record {
        same_key = refl;
        counted = omega arith;
        within = omega arith;
        was_alive = λ a. ground arith;
        was_running = λ r. r;
      })
      | inr last ↦ rw last (record {
        same_key = refl;
        counted = e;
        within = m;
        was_alive = λ a. a;
        was_running = λ r. r;
      })
    ]

    pub drop-Changes :
        (x : Work K)
        → 0 < x.held
        → x.holds ≡ x.held
        → x.held ≤ c.max_waiters
        → Changes dec c x (drop_hold x)
    unfolding drop_hold
    drop-Changes x h e m = record {
      same_key = refl;
      counted = omega arith;
      within = omega arith;
      was_alive = λ a. ground arith;
      was_running = λ r. r;
    }

    other :
        (x y : Work K)
        → (is_alive x && not x.is_done) ≡ false
        → (is_alive y && not y.is_done) ≡ true
        → x ≡ y
        → ⊥
    other x y h a e =
        true≠false (sym a ∙ sym (ap (λ (z : Work K). is_alive z && not z.is_done) e) ∙ h)
      where
        true≠false : true ≡ false → ⊥
        true≠false e = cc

    abbrev is_live : Work K → Bool
    is_live x = is_alive x && not x.is_done

    lookup-live :
        (k : K) (w : ℕ) (works : ℕ → Work K) (groups : List (K × ℕ))
        → lookup dec k groups ≡ some w
        → is_live (works w) ≡ true
        → lookup dec k (live_groups works groups) ≡ some w
    unfolding lookup live_groups
    lookup-live k w works [] h a = cc
    lookup-live k w works ((j, v) ∷ groups) h a = elim (Bool-cases (is_live (works v))) [
      | inl live ↦ rw live (ground (arith, lookup-live k w works groups))
      | inr dead ↦ rw dead (
          elim (dec j k)
              as (λ d.
                ite d (some v) (lookup dec k groups) ≡ some w
                → lookup dec k (live_groups works groups) ≡ some w) [
                  | yes e ↦
                      λ same. absurd (other (works v) (works w) dead a (ap works (some_eq same)))
                  | no ne ↦ λ found. lookup-live k w works groups found a
                ]
            h)
    ]

    length-live-le :
        (works : ℕ → Work K) (groups : List (K × ℕ))
        → length (live_groups works groups) ≤ length groups
    unfolding live_groups
    length-live-le works [] = omega arith
    length-live-le works ((j, v) ∷ groups) = ground (arith, length-live-le works groups)

    length-insert-le :
        (k : K) (w : ℕ) (groups : List (K × ℕ)) → length (insert dec k w groups) ≤ length groups + 1
    unfolding insert
    length-insert-le k w [] = omega arith
    length-insert-le k w ((j, v) ∷ groups) = ground (arith, length-insert-le k w groups)

    -- A new work, counted once and registered at most under its own key.
    add-IsFlights :
        (st : Flights K) (key : Option K) (groups : List (K × ℕ)) (lock : Stage K)
        → IsFlights dec c st
        → ((w : ℕ) (k : K)
            → (st.works w).key ≡ some k
            → is_alive (st.works w) ≡ true
            → (st.works w).is_done ≡ false
            → lookup dec k groups ≡ some w)
        → ((k : K) → key ≡ some k → lookup dec k groups ≡ some st.next)
        → length groups ≤ c.max_groups
        → ((w : ℕ) → lock ≡ joining w → st.lock ≡ joining w)
        → IsFlights dec c (record (put st.next (new_hold (new_work key)) st) {
          groups = groups;
          lock = lock;
          next = st.next + 1;
        })
    unfolding new_hold
    add-IsFlights st key groups lock inv old new room same = record {
      counted = λ u.
          set_work_rule (λ z. z.holds ≡ z.held) st.next u _ st.works (λ e. omega arith)
            (λ ne. inv.counted u);
      within = λ u.
          set_work_rule (λ z. z.held ≤ c.max_waiters) st.next u _ st.works (λ e. omega arith)
            (λ ne. inv.within u);
      fresh = λ u h.
          set_work_rule (λ z. is_alive z ≡ false) st.next u _ st.works (λ e. absurd (omega arith))
            (λ ne. inv.fresh u (omega arith));
      registered = λ u k.
          set_work_rule
            (λ z.
              z.key ≡ some k → is_alive z ≡ true → z.is_done ≡ false → lookup dec k groups ≡ some u)
            st.next u _ st.works (λ e h alive running. new k h ∙ ap some (sym e)) (λ ne. old u k);
      room = room;
      locked = λ v e.
          set_work_rule (λ z. 0 < z.upgraded) st.next v _ st.works
            (λ at. absurd (ground (arith, inv.locked v (same v e), inv.fresh v (omega arith))))
            (λ ne. inv.locked v (same v e));
    }

    pub bypass-IsFlights : (st : Flights K) → IsFlights dec c st → IsFlights dec c (bypass st)
    unfolding bypass
    bypass-IsFlights st inv =
        add-IsFlights st none st.groups st.lock inv inv.registered (λ k e. cc) inv.room (λ w e. e)

    pub reap-IsFlights : (k : K) (st : Flights K) → IsFlights dec c st → IsFlights dec c (reap k st)
    unfolding reap
    reap-IsFlights k st inv = record {
      counted = inv.counted;
      within = inv.within;
      fresh = inv.fresh;
      registered = λ w j h alive running.
          lookup-live j w st.works st.groups (inv.registered w j h alive running) (ground arith);
      room = omega (arith, length-live-le st.works st.groups, inv.room);
      locked = λ w e. cc;
    }

    unlock-IsFlights :
        (st : Flights K) → IsFlights dec c st → IsFlights dec c (record st { lock = unlocked })
    unlock-IsFlights st inv = record {
      counted = inv.counted;
      within = inv.within;
      fresh = inv.fresh;
      registered = inv.registered;
      room = inv.room;
      locked = λ w e. cc;
    }

    pub lead-IsFlights :
        (k : K) (st : Flights K)
        → IsFlights dec c st
        → ((w : ℕ) → lookup dec k st.groups ≡ some w → is_alive (st.works w) ≡ false)
        → IsFlights dec c (lead dec c k st)
    unfolding lead
    lead-IsFlights k st inv dead = elim (Bool-cases (leb c.max_groups (length st.groups))) [
      | inl full ↦ rw full (unlock-IsFlights st inv)
      | inr space ↦ rw space (
          add-IsFlights st (some k) (insert dec k st.next st.groups) unlocked inv
            (λ w j h alive running.
              lookup-insert_rule dec (λ o. o ≡ some w) k j st.next st.groups
                (λ e. absurd (
                  ground (
                    arith,
                    dead w
                        (ap (λ i. lookup dec i st.groups) e ∙ inv.registered w j h alive running),
                  )))
                (λ ne. inv.registered w j h alive running))
            (λ j e.
              subst (λ i. lookup dec i (insert dec k st.next st.groups) ≡ some st.next) (some_eq e)
                (lookup-insert_self dec k st.next st.groups))
            (ground (arith, length-insert-le k st.next st.groups)) (λ w e. cc))
    ]
