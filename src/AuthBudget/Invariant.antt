-- ===== src/AuthBudget/Invariant.antt =====
-- manage/auth_budget.rs: the well-formed table of sources, and one attempt on it.
use native.Mathlib.Nat.{le_trans}
use pari_ns.Prelude.{
  ℕ, zero, suc, ◌+◌, ◌≤◌, ◌<◌, min, max, ◌≡◌, refl, false, inl, inr, some, List, [], ◌∷◌, ◌++◌,
  arith, length, length-append, Option-cases, Bool-cases, ◌==◌,
}
use pari_ns.Prelude.Assoc.{
  lookup, insert, lookup-insert_self, length-insert_absent, length-insert_present, length-remove-le,
  Each, Each-insert, Each-remove,
}
use pari_ns.Prelude.Sweep.{
  IsSwept, front_present, rotate-IsSwept, update-IsSwept, add-IsSwept, drop-IsSwept,
}
use pari_ns.AuthBudget.Table.{
  Sources, Outcome, panic, limited, accepted, expire, last_or, put_back, scan, sweep_rounds,
  record_attempt, admit_source, attempt, attempts_max, sources_max, reclaim_scan,
}

pub length-expire-le : (now : ℕ) (d : List ℕ) → length (expire now d) ≤ length d
unfolding expire
length-expire-le now [] = omega arith
length-expire-le now (at ∷ d) = ground (arith, length-expire-le now d)

-- At most as many attempts as a window allows.
abbrev pub Few : List ℕ → Type 0
Few d = length d ≤ attempts_max

module _ {K : Type 0} (dec : Discrete K) where
  pub record IsTable (st : Sources K) : Type 0 where
    pub sources : IsSwept dec st.entries st.sweep
    pub bounded : length st.entries ≤ sources_max
    pub budgets : Each dec Few st.entries

  -- A panic is not among what a call may do, and the table stays whole.
  abbrev pub Answers : Outcome K → Type 0
  Answers panic = ⊥
  Answers (limited st) = IsTable st
  Answers (accepted st) = IsTable st

  update-IsTable :
      (st : Sources K) (k : K) (d d' : List ℕ)
      → lookup dec k st.entries ≡ some d
      → Few d'
      → IsTable st
      → IsTable (record st { entries = insert dec k d' st.entries })
  update-IsTable st k d d' h w t = record {
    sources = update-IsSwept dec st.entries k d d' st.sweep h t.sources;
    bounded = rw (length-insert_present dec k d' st.entries d h) t.bounded;
    budgets = Each-insert dec Few k d' st.entries w t.budgets;
  }

  put_back-IsTable :
      (k : K) (rest : List K) (m : List (K × List ℕ)) (d left : List ℕ)
      → lookup dec k m ≡ some d
      → Few left
      → IsTable (record { entries = m; sweep = k ∷ rest })
      → IsTable (put_back dec k rest left m)
  unfolding put_back
  put_back-IsTable k rest m d [] h w t = record {
    sources = drop-IsSwept dec m k rest t.sources;
    bounded = le_trans (length-remove-le dec k m) t.bounded;
    budgets = Each-remove dec Few k m t.budgets;
  }
  put_back-IsTable k rest m d (at ∷ later) h w t = record {
    sources = rotate-IsSwept dec m k d (at ∷ later) rest h t.sources;
    bounded = rw (length-insert_present dec k (at ∷ later) m d h) t.bounded;
    budgets = Each-insert dec Few k (at ∷ later) m w t.budgets;
  }

  length-put_back :
      (k : K) (rest : List K) (left : List ℕ) (m : List (K × List ℕ))
      → length rest ≤ length (put_back dec k rest left m).sweep
  unfolding put_back
  length-put_back k rest [] m = omega arith
  length-put_back k rest (at ∷ later) m = omega (arith, length-append {0} rest (k ∷ []))

  scan_lem :
      (now : ℕ) (m : List (K × List ℕ)) (sweep : List K)
      → 0 < length sweep
      → IsTable (record { entries = m; sweep = sweep })
      → (st : Sources K) × (scan dec now (record { entries = m; sweep = sweep }) ≡ some st)
        × IsTable st
        × (length sweep ≤ length st.sweep + 1)
  unfolding scan
  scan_lem now m [] h t = absurd (omega arith)
  scan_lem now m (k ∷ rest) h t =
      let (d, f) = front_present dec m k rest t.sources in
      (
        put_back dec k rest (expire now d) m,
        rw (f, scan) refl,
        put_back-IsTable k rest m d (expire now d) f
            (le_trans (length-expire-le now d) (t.budgets k d f)) t,
        omega (arith, length-put_back k rest (expire now d) m),
      )

  -- A sweep of as many rounds as there are sources, or fewer, never finds its queue empty.
  pub sweep_lem :
      (now n : ℕ) (st : Sources K)
      → n ≤ length st.sweep
      → IsTable st
      → (st' : Sources K) × (sweep_rounds dec now n st ≡ some st') × IsTable st'
  unfolding sweep_rounds
  sweep_lem now zero st h t = (st, refl, t)
  sweep_lem now (suc n) st h t =
      let (b, e, u, l) = scan_lem now st.entries st.sweep (omega arith) t in
      let (c, f, v) = sweep_lem now n b (omega arith) u in (c, rw (e, sweep_rounds) f, v)

  record_attempt_lem :
      (now : ℕ) (peer : K) (st : Sources K) (d : List ℕ)
      → lookup dec peer st.entries ≡ some d
      → IsTable st
      → Answers (record_attempt dec now peer st)
  unfolding record_attempt
  record_attempt_lem now peer st d f t = elim (Bool-cases (length (expire now d) == attempts_max)) [
    | inl full ↦ rw (f, record_attempt, full) (update-IsTable st peer d (expire now d) f few t)
    | inr room ↦
        rw (f, record_attempt, room)
          (update-IsTable st peer d (expire now d ++ max (last_or now (expire now d)) now ∷ []) f
            (pushed _ room) t)
  ]
    where
      few : Few (expire now d)
      few = le_trans (length-expire-le now d) (t.budgets peer d f)

      pushed :
          (x : ℕ) → (length (expire now d) == attempts_max) ≡ false → Few (expire now d ++ x ∷ [])
      pushed x room = ground (arith, few, length-append (expire now d) (x ∷ []))

  admit_source_lem :
      (now : ℕ) (peer : K) (st : Sources K) → IsTable st → Answers (admit_source dec now peer st)
  unfolding admit_source
  admit_source_lem now peer st t = elim (Option-cases (lookup dec peer st.entries)) [
    | inr (d, f) ↦ rw (f, admit_source) (record_attempt_lem now peer st d f t)
    | inl e ↦ elim (Bool-cases (length st.entries == sources_max)) [
      | inl full ↦ rw (e, admit_source, full) t
      | inr room ↦
          rw (e, admit_source, room)
            (record_attempt_lem now peer _ [] (lookup-insert_self dec peer [] st.entries) (record {
              sources = add-IsSwept dec st.entries peer [] st.sweep e t.sources;
              bounded =
                  rw (length-insert_absent dec peer [] st.entries e) (ground (arith, t.bounded));
              budgets = Each-insert dec Few peer [] st.entries (omega arith) t.budgets;
            }))
    ]
  ]

  -- On a whole table an attempt never panics and leaves a whole table: one entry and one sweep
  -- place for each source, at most `sources_max` sources, and at most `attempts_max` attempts kept
  -- for each.
  pub attempt-Answers :
      (now : ℕ) (peer : K) (st : Sources K) → IsTable st → Answers (attempt dec now peer st)
  unfolding attempt
  attempt-Answers now peer st t =
      let (b, e, u) = sweep_lem now (min reclaim_scan (length st.sweep)) st (omega arith) t in
      rw (e, attempt) (admit_source_lem now peer b u)
