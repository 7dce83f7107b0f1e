-- ===== src/Flight/Works.antt =====
-- flight.rs: the invariant of the registry and its works.
use pari_ns.Prelude.{
  ℕ, ◌≤◌, ◌<◌, ◌≡◌, sym, ◌∙◌, ap, true, false, some, ◌==◌, length, Bool-cases, arith, inl, inr,
}
use pari_ns.Prelude.Assoc.{lookup}
use pari_ns.Flight.{CoalescingConfig, Work, Stage, joining, Flights, is_alive, set_work, put}

module _ {K : Type 0} where
  pub set_work_rule {ν} :
      (P : Work K → Type ν) (w v : ℕ) (x : Work K) (works : ℕ → Work K)
      → (v ≡ w → P x)
      → (¬ (v ≡ w) → P (works v))
      → P (set_work w x works v)
  unfolding set_work
  set_work_rule P w v x works here there = elim (Bool-cases (v == w)) [
    | inl e ↦ rw e (here (ground arith))
    | inr e ↦ rw e (there (λ p. ground arith))
  ]

module _ {K : Type 0} (dec : Discrete K) (c : CoalescingConfig) where
  -- A counter is the number of counted holds, and within the limit; at most `max_groups` groups
  -- are registered; an unfinished work that someone refers to is the registered one of its key.
  pub record IsFlights (st : Flights K) : Type 0 where
    pub counted : (w : ℕ) → (st.works w).holds ≡ (st.works w).held
    pub within : (w : ℕ) → (st.works w).held ≤ c.max_waiters
    pub fresh : (w : ℕ) → st.next ≤ w → is_alive (st.works w) ≡ false
    pub registered :
        (w : ℕ) (k : K)
        → (st.works w).key ≡ some k
        → is_alive (st.works w) ≡ true
        → (st.works w).is_done ≡ false
        → lookup dec k st.groups ≡ some w
    pub room : length st.groups ≤ c.max_groups
    pub locked : (w : ℕ) → st.lock ≡ joining w → 0 < (st.works w).upgraded

  -- What a step may change of one work.
  pub record Changes (x y : Work K) : Type 0 where
    pub same_key : y.key ≡ x.key
    pub counted : y.holds ≡ y.held
    pub within : y.held ≤ c.max_waiters
    pub was_alive : is_alive y ≡ true → is_alive x ≡ true
    pub was_running : y.is_done ≡ false → x.is_done ≡ false

  pub change-IsFlights :
      (st : Flights K) (w : ℕ) (y : Work K) (lock : Stage K)
      → IsFlights st
      → Changes (st.works w) y
      → ((v : ℕ) → lock ≡ joining v → 0 < (set_work w y st.works v).upgraded)
      → IsFlights (record (put w y st) { lock = lock })
  change-IsFlights st w y lock v ch locked = record {
    counted = λ u.
        set_work_rule (λ z. z.holds ≡ z.held) w u y st.works (λ e. ch.counted) (λ ne. v.counted u);
    within = λ u.
        set_work_rule (λ z. z.held ≤ c.max_waiters) w u y st.works (λ e. ch.within)
          (λ ne. v.within u);
    fresh = λ u h.
        set_work_rule (λ z. is_alive z ≡ false) w u y st.works
          (λ e. elim (Bool-cases (is_alive y)) [
            | inl alive ↦ absurd (ground (arith, ch.was_alive alive, v.fresh w (omega arith)))
            | inr dead ↦ dead
          ])
          (λ ne. v.fresh u h);
    registered = λ u k.
        set_work_rule
          (λ z.
            z.key ≡ some k
            → is_alive z ≡ true
            → z.is_done ≡ false
            → lookup dec k st.groups ≡ some u)
          w u y st.works
          (λ e h alive running.
            ap (λ r. r)
              (v.registered w k (sym ch.same_key ∙ h) (ch.was_alive alive) (ch.was_running running))
            ∙ ap some (sym e))
          (λ ne. v.registered u k);
    room = v.room;
    locked = locked;
  }

  -- The work that is upgraded keeps its reference.
  keep_upgraded :
      (st : Flights K) (w v : ℕ) (y : Work K)
      → IsFlights st
      → y.upgraded ≡ (st.works w).upgraded
      → st.lock ≡ joining v
      → 0 < (set_work w y st.works v).upgraded
  keep_upgraded st w v y inv same locked =
      set_work_rule (λ z. 0 < z.upgraded) w v y st.works
        (λ e. omega (arith, same, inv.locked v locked, ap (λ (u : ℕ). (st.works u).upgraded) e))
        (λ ne. inv.locked v locked)

  pub put-IsFlights :
      (st : Flights K) (w : ℕ) (y : Work K)
      → IsFlights st
      → Changes (st.works w) y
      → y.upgraded ≡ (st.works w).upgraded
      → IsFlights (put w y st)
  put-IsFlights st w y inv ch same =
      change-IsFlights st w y st.lock inv ch (λ v e. keep_upgraded st w v y inv same e)
