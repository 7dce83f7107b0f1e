-- ===== src/Limits/Permits.antt =====
-- The permits that tasks hold, and every order in which they are taken and dropped.
use pari_ns.Prelude.{
  ℕ, ◌+◌, ◌≤◌, ◌≡◌, refl, ◌≢◌, inl, inr, subst, ◌∙◌, some, List, [], ◌∷◌, ◌++◌, arith, length,
  choose, choose_yes, Option-cases,
}
use pari_ns.Prelude.Assoc.{lookup}
use pari_ns.Prelude.Sweep.{nil-IsSwept}
use pari_ns.Limits.Settings.{Settings}
use pari_ns.Limits.Table.{
  Kind, query, connection, Denied, State, panic, refused, admitted, acquire, release,
}
use pari_ns.Limits.Invariant.{active, IsTable}
use pari_ns.Limits.Admission.{one_if, Answers, acquire-Answers, release_lem}

module _ {K : Type 0} (dec : Discrete K) (s : Settings) where
  -- The table, and the permits that are held, newest first.
  pub record System : Type 0 where
    pub table : State K
    pub held : List (Kind × K)

  abbrev pub initial : System
  initial = record { table = record { entries = []; sweep = [] }; held = [] }

  -- The permits of one kind that are held for one source.
  unfoldable pub tally : Kind → K → List (Kind × K) → ℕ
  tally kind k [] = 0
  tally kind k ((other, j) ∷ held) = choose (dec j k) (one_if other kind) 0 + tally kind k held

  -- A call that admits hands out a permit, a call that denies does not; any permit that is held
  -- may be dropped. Each takes the lock once.
  pub data Step (a : System) : System → Type 0 where
    admits :
        (now : ℕ) (kind : Kind) (k : K) (st : State K)
        → acquire dec s now kind k a.table ≡ admitted st
        → Step a (record { table = st; held = (kind, k) ∷ a.held })
    denies :
        (now : ℕ) (kind : Kind) (k : K) (d : Denied) (st : State K)
        → acquire dec s now kind k a.table ≡ refused d st
        → Step a (record { table = st; held = a.held })
    drops :
        (kind : Kind) (k : K) (newer older : List (Kind × K)) (st : State K)
        → a.held ≡ newer ++ (kind, k) ∷ older
        → release dec k kind a.table ≡ some st
        → Step a (record { table = st; held = newer ++ older })

  pub data Reach : System → Type 0 where
    start : Reach initial
    next : {a b : System} → Reach a → Step a b → Reach b

  -- The table is whole and counts exactly the permits that are held.
  pub record IsConsistent (a : System) : Type 0 where
    pub whole : IsTable dec s a.table
    pub counted : (kind : Kind) (k : K) → active dec kind a.table k ≡ tally kind k a.held

  tally-append :
      (kind : Kind) (k : K) (xs ys : List (Kind × K))
      → tally kind k (xs ++ ys) ≡ tally kind k xs + tally kind k ys
  unfolding tally
  tally-append kind k [] ys = omega arith
  tally-append kind k ((other, j) ∷ xs) ys = omega (arith, tally-append kind k xs ys)

  initial-IsConsistent : IsConsistent initial
  unfolding active tally lookup
  initial-IsConsistent = record {
    whole = record { sources = nil-IsSwept dec; bounded = omega arith; budgets = λ k e h. cc };
    counted = λ kind k. refl;
  }

  one_if_self : (kind : Kind) → one_if kind kind ≡ 1
  one_if_self query = refl
  one_if_self connection = refl

  tally-middle :
      (other kind : Kind) (j k : K) (newer older : List (Kind × K))
      → tally other j (newer ++ (kind, k) ∷ older)
        ≡ choose (dec k j) (one_if kind other) 0 + tally other j (newer ++ older)
  unfolding tally
  tally-middle other kind j k newer older =
      omega
        (arith, tally-append other j newer ((kind, k) ∷ older), tally-append other j newer older)

  -- A permit that is held can be dropped, and the table counts the permits that are left.
  drops_lem :
      (a : System) (kind : Kind) (k : K) (newer older : List (Kind × K))
      → a.held ≡ newer ++ (kind, k) ∷ older
      → IsConsistent a
      → (st : State K) × (release dec k kind a.table ≡ some st)
        × IsConsistent (record { table = st; held = newer ++ older })
  drops_lem a kind k newer older h c =
      let (st, e, whole, less) =
        release_lem dec s kind k a.table c.whole (omega (arith, positive)) in
      (
        st,
        e,
        record {
          whole = whole;
          counted = λ other j. omega (arith, less other j, c.counted other j, held other j);
        },
      )
    where
      held :
          (other : Kind) (j : K)
          → tally other j a.held
            ≡ choose (dec k j) (one_if kind other) 0 + tally other j (newer ++ older)
      held other j = rw h (tally-middle other kind j k newer older)

      positive : 1 ≤ active dec kind a.table k
      positive = omega (
        arith,
        c.counted kind k,
        held kind k,
        choose_yes (dec k k) (one_if kind kind) 0 refl,
        one_if_self kind,
      )

  Step-IsConsistent : {a b : System} → Step a b → IsConsistent a → IsConsistent b
  unfolding tally
  Step-IsConsistent {a} (admits now kind k st e) c =
      let grants : Answers dec s kind k a.table (admitted st) =
        rw e at (acquire-Answers dec s now kind k a.table c.whole) in
      record {
        whole = grants.table;
        counted = λ other j. omega (arith, grants.more other j, c.counted other j);
      }
  Step-IsConsistent {a} (denies now kind k d st e) c =
      let keeps : Answers dec s kind k a.table (refused d st) =
        rw e at (acquire-Answers dec s now kind k a.table c.whole) in
      record { whole = keeps.table; counted = λ other j. keeps.same other j ∙ c.counted other j }
  Step-IsConsistent {a} (drops kind k newer older st h e) c =
      let (st', e', c') = drops_lem a kind k newer older h c in
      let same : st' ≡ st = ground arith in
      subst (λ (t : State K). IsConsistent (record { table = t; held = newer ++ older })) same c'

  Reach-IsConsistent : {a : System} → Reach a → IsConsistent a
  Reach-IsConsistent start = initial-IsConsistent
  Reach-IsConsistent (next r st) = Step-IsConsistent st (Reach-IsConsistent r)

  active-le :
      (k : K) (a : System)
      → IsConsistent a
      → (active dec query a.table k ≤ s.max_inflight)
        × (active dec connection a.table k ≤ s.max_connections)
  unfolding active
  active-le k a c = elim (Option-cases (lookup dec k a.table.entries)) [
    | inl e ↦ rw e (omega arith)
    | inr (e, f) ↦ rw f (omega (arith, c.whole.budgets k e f))
  ]

  -- What holds of every state that the limiter reaches, in any order of calls and drops.
  pub record IsSafe (a : System) : Type 0 where
    pub no_panic : (now : ℕ) (kind : Kind) (k : K) → acquire dec s now kind k a.table ≢ panic
    pub inflight_bound : (k : K) → tally query k a.held ≤ s.max_inflight
    pub connection_bound : (k : K) → tally connection k a.held ≤ s.max_connections
    pub source_bound : length a.table.entries ≤ s.max_sources

  -- From the empty table, through any calls with any times and any drops of held permits, in any
  -- order: no call panics, no source holds more than `max_inflight` queries or
  -- `max_connections` connections at once, and the table holds at most `max_sources` sources.
  pub Reach-IsSafe : {a : System} → Reach a → IsSafe a
  Reach-IsSafe {a} r = record {
    no_panic = λ now kind k e.
        subst (Answers dec s kind k a.table) e (acquire-Answers dec s now kind k a.table c.whole);
    inflight_bound = λ k. omega (arith, c.counted query k, active-le k a c);
    connection_bound = λ k. omega (arith, c.counted connection k, active-le k a c);
    source_bound = c.whole.bounded;
  }
    where
      c : IsConsistent a
      c = Reach-IsConsistent r

  -- After any calls and drops, in any order, every permit that is held can be dropped: the drop
  -- does not panic, and the table then counts, for every source and kind, exactly the permits that
  -- are still held.
  pub Reach-release :
      {a : System} (kind : Kind) (k : K) (newer older : List (Kind × K))
      → Reach a
      → a.held ≡ newer ++ (kind, k) ∷ older
      → (st : State K) × (release dec k kind a.table ≡ some st)
        × ((other : Kind) (j : K) → active dec other st j ≡ tally other j (newer ++ older))
  Reach-release {a} kind k newer older r h =
      let (st, e, c) = drops_lem a kind k newer older h (Reach-IsConsistent r) in (st, e, c.counted)
