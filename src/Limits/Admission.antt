-- ===== src/Limits/Admission.antt =====
-- limits.rs: admission and the drop of a permit, on a well-formed table.
use pari_ns.Prelude.{
  ℕ, ◌+◌, ◌-◌, ◌<◌, min, ◌≡◌, refl, inl, inr, none, some, [], ◌∷◌, ◌++◌, arith, length, choose,
  Option-cases, Bool-cases, ◌==◌,
}
use pari_ns.Prelude.Assoc.{lookup, insert, lookup-insert, lookup-insert_self}
use pari_ns.Limits.Settings.{Settings}
use pari_ns.Limits.Table.{
  Entry, Kind, query, connection, State, Outcome, panic, refused, admitted, Charge, deny, pay,
  reclaim_scan, refill, charge, fresh, insert_source, add_source, settle, charge_source,
  then_charge, acquire, release, release_kind,
}
use pari_ns.Limits.Sweeping.{reclaim_absent}
use pari_ns.Limits.Invariant.{
  update-IsTable, add-IsTable, in_use, Within, refill-Within, in_use-refill, active, IsTable, Keeps,
  Keeps-trans, reclaim_lem,
}

-- One permit more of the kind that is charged, and the other kind as it was.
abbrev pub one_if : Kind → Kind → ℕ
one_if query query = 1
one_if connection connection = 1
one_if _ _ = 0

charge_pay :
    (s : Settings) (kind other : Kind) (e e' : Entry)
    → Within s e
    → charge s kind e ≡ pay e'
    → Within s e' × (in_use other e' ≡ one_if kind other + in_use other e)
unfolding charge
charge_pay s query query e e' w h = ground arith
charge_pay s query connection e e' w h = ground arith
charge_pay s connection query e e' w h = ground arith
charge_pay s connection connection e e' w h = ground arith

release_kind_lem :
    (s : Settings) (kind : Kind) (e : Entry)
    → 0 < in_use kind e
    → Within s e
    → (e' : Entry) × (release_kind kind e ≡ some e')
      × Within s e'
      × ((other : Kind) → in_use other e ≡ one_if kind other + in_use other e')
unfolding release_kind
release_kind_lem s query e h w =
    (record e { queries = e.queries - 1 }, ground arith, omega arith, other_lem)
  where
    other_lem :
        (other : Kind)
        → in_use other e ≡ one_if query other + in_use other (record e { queries = e.queries - 1 })
    other_lem query = omega arith
    other_lem connection = omega arith
release_kind_lem s connection e h w =
    (record e { connections = e.connections - 1 }, ground arith, omega arith, other_lem)
  where
    other_lem :
        (other : Kind)
        → in_use other e
          ≡ one_if connection other + in_use other (record e { connections = e.connections - 1 })
    other_lem query = omega arith
    other_lem connection = omega arith

module _ {K : Type 0} (dec : Discrete K) (s : Settings) where
  -- One permit more of the kind `kind` for the source `k`.
  pub record Grants (kind : Kind) (k : K) (st st' : State K) : Type 0 where
    pub table : IsTable dec s st'
    pub more :
        (other : Kind) (j : K)
        → active dec other st' j ≡ choose (dec k j) (one_if kind other) 0 + active dec other st j

  -- What a call may do: deny and keep every count, or admit one permit. A panic is not among it.
  abbrev pub Answers : Kind → K → State K → Outcome K → Type 0
  Answers kind k st panic = ⊥
  Answers kind k st (refused d st') = Keeps dec s st st'
  Answers kind k st (admitted st') = Grants kind k st st'

  settle_lem :
      (now : ℕ) (kind : Kind) (k : K) (st : State K) (e : Entry) (c : Charge)
      → lookup dec k st.entries ≡ some e
      → IsTable dec s st
      → charge s kind (refill s now e) ≡ c
      → Answers kind k st (settle dec s k (refill s now e) st c)
  unfolding settle active
  settle_lem now kind k st e (deny d) h t p = record {
    table =
        update-IsTable dec s st k e (refill s now e) h (refill-Within s now e (t.budgets k e h)) t;
    same = λ other j.
        ground (
          arith,
          lookup-insert dec k j (refill s now e) st.entries,
          h,
          in_use-refill s now e other,
        );
  }
  settle_lem now kind k st e (pay e') h t p = record {
    table =
        update-IsTable dec s st k e e' h
          ((charge_pay s kind query (refill s now e) e' (refill-Within s now e (t.budgets k e h))
            p).0)
          t;
    more = λ other j. ground (
      arith,
      lookup-insert dec k j e' st.entries,
      h,
      in_use-refill s now e other,
      charge_pay s kind other (refill s now e) e' (refill-Within s now e (t.budgets k e h)) p,
    );
  }

  -- What follows a step that keeps every count is judged from before that step.
  Answers-after :
      (kind : Kind) (k : K) (a b : State K) (o : Outcome K)
      → Keeps dec s a b
      → Answers kind k b o
      → Answers kind k a o
  Answers-after kind k a b panic f g = g
  Answers-after kind k a b (refused d c) f g = Keeps-trans dec s f g
  Answers-after kind k a b (admitted c) f g = record {
    table = g.table;
    more = λ other j. omega (arith, g.more other j, f.same other j);
  }

  charge_source_lem :
      (now : ℕ) (kind : Kind) (k : K) (st : State K) (e : Entry)
      → lookup dec k st.entries ≡ some e
      → IsTable dec s st
      → Answers kind k st (charge_source dec s now kind k st)
  unfolding charge_source
  charge_source_lem now kind k st e h t =
      rw (h, charge_source) (settle_lem now kind k st e (charge s kind (refill s now e)) h t refl)

  fresh-Within : (now : ℕ) → Within s (fresh s now)
  unfolding fresh
  fresh-Within now = omega arith

  fresh-Keeps :
      (now : ℕ) (k : K) (st : State K)
      → lookup dec k st.entries ≡ none
      → length st.entries < s.max_sources
      → IsTable dec s st
      → Keeps dec s st
          (record { entries = insert dec k (fresh s now) st.entries; sweep = st.sweep ++ k ∷ [] })
  unfolding active
  fresh-Keeps now k st h room t = record {
    table = add-IsTable dec s st k (fresh s now) h room (fresh-Within now) t;
    same = λ kind j.
        ground (arith, lookup-insert dec k j (fresh s now) st.entries, h, fresh_unused kind now);
  }
    where
      fresh_unused : (kind : Kind) (now : ℕ) → in_use kind (fresh s now) ≡ 0
      fresh_unused query now = unfold fresh in refl
      fresh_unused connection now = unfold fresh in refl

  insert_source_lem :
      (now : ℕ) (kind : Kind) (k : K) (st : State K)
      → lookup dec k st.entries ≡ none
      → IsTable dec s st
      → Answers kind k st (then_charge dec s now kind k (insert_source dec s now k st))
  unfolding insert_source then_charge
  insert_source_lem now kind k st h t = elim (Bool-cases (length st.entries == s.max_sources)) [
    | inl full ↦ rw (full, then_charge) (record { table = t; same = λ other j. refl })
    | inr room ↦
        let keeps = fresh-Keeps now k st h (ground arith) t in
        rw (room, then_charge)
          (Answers-after kind k st _ _ keeps (
            charge_source_lem now kind k _ (fresh s now)
              (lookup-insert_self dec k (fresh s now) st.entries) keeps.table))
  ]

  add_source_lem :
      (now : ℕ) (kind : Kind) (k : K) (st : State K)
      → lookup dec k st.entries ≡ none
      → IsTable dec s st
      → Answers kind k st (then_charge dec s now kind k (add_source dec s now k st))
  unfolding add_source
  add_source_lem now kind k st h t = elim (Bool-cases (length st.entries == s.max_sources)) [
    | inl full ↦
        let (st', e, keeps) =
          reclaim_lem dec s now (min reclaim_scan (length st.sweep)) st (omega arith) t in
        rw (full, e, add_source)
          (Answers-after kind k st st' _ keeps (
            insert_source_lem now kind k st' (reclaim_absent dec s now _ k st st' h e) keeps.table))
    | inr room ↦ rw room (insert_source_lem now kind k st h t)
  ]

  -- On a whole table an admission never panics. It leaves a whole table: one entry and one sweep
  -- place for each source, at most `max_sources` sources, every budget within its limit. If it
  -- denies, the count of permits of every source and kind is as before; if it admits, that of the
  -- source and kind asked for is one more and all others are as before.
  pub acquire-Answers :
      (now : ℕ) (kind : Kind) (k : K) (st : State K)
      → IsTable dec s st
      → Answers kind k st (acquire dec s now kind k st)
  unfolding acquire
  acquire-Answers now kind k st t = elim (Option-cases (lookup dec k st.entries)) [
    | inl e ↦ rw (e, acquire) (add_source_lem now kind k st e t)
    | inr (e, f) ↦ rw (f, acquire) (charge_source_lem now kind k st e f t)
  ]

  -- The drop of a permit that the table counts never panics, keeps the table whole and takes that
  -- one permit off, so no active entry is ever evicted and no counter passes below zero.
  pub release_lem :
      (kind : Kind) (k : K) (st : State K)
      → IsTable dec s st
      → 0 < active dec kind st k
      → (st' : State K) × (release dec k kind st ≡ some st')
        × IsTable dec s st'
        × ((other : Kind) (j : K)
            → active dec other st j
              ≡ choose (dec k j) (one_if kind other) 0 + active dec other st' j)
  unfolding release release_kind active
  release_lem kind k st t h = elim (Option-cases (lookup dec k st.entries)) [
    | inl e ↦ absurd (ground arith)
    | inr (e, f) ↦
        let (e', r, w, counts) = release_kind_lem s kind e (ground arith) (t.budgets k e f) in
        (
          _,
          rw (f, release, r),
          update-IsTable dec s st k e e' f w t,
          λ other j. ground (arith, lookup-insert dec k j e' st.entries, f, counts other),
        )
  ]
