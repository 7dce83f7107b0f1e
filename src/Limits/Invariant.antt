-- ===== src/Limits/Invariant.antt =====
-- limits.rs: the well-formed table of sources, and the reclamation loop on it.
use native.Mathlib.Nat.{le_trans}
use pari_ns.Prelude.{
  ℕ, zero, suc, ◌*◌, ◌≤◌, ◌<◌, ◌≡◌, refl, ◌∙◌, ◌⊎◌, inl, inr, true, Option, none, some, List, [],
  ◌∷◌, ◌++◌, arith, length, length-append, Bool-cases,
}
use pari_ns.Prelude.Assoc.{
  lookup, insert, remove, lookup-insert, lookup-remove, length-insert_absent, length-insert_present,
  length-remove-le, Each, Each-insert, Each-remove,
}
use pari_ns.Prelude.Sweep.{
  IsSwept, front_present, rotate-IsSwept, update-IsSwept, add-IsSwept, drop-IsSwept,
}
use pari_ns.Limits.Settings.{Settings}
use pari_ns.Limits.Table.{
  Entry, Kind, query, connection, State, reclaimed, kept, token, refill, is_idle, scan, reclaim,
}
use pari_ns.Limits.Refill.{refill_bound, refill_counts}

abbrev pub in_use : Kind → Entry → ℕ
in_use query e = e.queries
in_use connection e = e.connections

abbrev pub Within : Settings → Entry → Type 0
Within s e =
    (e.credit ≤ s.burst * token)
    × (e.queries ≤ s.max_inflight)
    × (e.connections ≤ s.max_connections)

pub refill-Within : (s : Settings) (now : ℕ) (e : Entry) → Within s e → Within s (refill s now e)
refill-Within s now e w = (
  refill_bound s now e w.0,
  omega (arith, refill_counts s now e),
  omega (arith, refill_counts s now e),
)

pub in_use-refill :
    (s : Settings) (now : ℕ) (e : Entry) (kind : Kind)
    → in_use kind (refill s now e) ≡ in_use kind e
in_use-refill s now e query = (refill_counts s now e).0
in_use-refill s now e connection = (refill_counts s now e).1

is_idle-in_use : (s : Settings) (e : Entry) (kind : Kind) → is_idle s e ≡ true → in_use kind e ≡ 0
unfolding is_idle
is_idle-in_use s e query h = ground arith
is_idle-in_use s e connection h = ground arith

module _ {K : Type 0} (dec : Discrete K) where
  abbrev pub count_of : Kind → Option Entry → ℕ
  count_of kind none = 0
  count_of kind (some e) = in_use kind e

  -- The permits that the table counts for a source.
  unfoldable pub active : Kind → State K → K → ℕ
  active kind st k = count_of kind (lookup dec k st.entries)

  module _ (s : Settings) where
    pub record IsTable (st : State K) : Type 0 where
      pub sources : IsSwept dec st.entries st.sweep
      pub bounded : length st.entries ≤ s.max_sources
      pub budgets : Each dec (Within s) st.entries

    pub update-IsTable :
        (st : State K) (k : K) (e e' : Entry)
        → lookup dec k st.entries ≡ some e
        → Within s e'
        → IsTable st
        → IsTable (record st { entries = insert dec k e' st.entries })
    update-IsTable st k e e' h w t = record {
      sources = update-IsSwept dec st.entries k e e' st.sweep h t.sources;
      bounded = rw (length-insert_present dec k e' st.entries e h) t.bounded;
      budgets = Each-insert dec (Within s) k e' st.entries w t.budgets;
    }

    pub add-IsTable :
        (st : State K) (k : K) (e : Entry)
        → lookup dec k st.entries ≡ none
        → length st.entries < s.max_sources
        → Within s e
        → IsTable st
        → IsTable (record { entries = insert dec k e st.entries; sweep = st.sweep ++ k ∷ [] })
    add-IsTable st k e h room w t = record {
      sources = add-IsSwept dec st.entries k e st.sweep h t.sources;
      bounded = rw (length-insert_absent dec k e st.entries h) (omega arith);
      budgets = Each-insert dec (Within s) k e st.entries w t.budgets;
    }

    -- A step that keeps the table whole and changes no count of permits.
    pub record Keeps (st st' : State K) : Type 0 where
      pub table : IsTable st'
      pub same : (kind : Kind) (k : K) → active kind st' k ≡ active kind st k

    pub Keeps-trans : {a b c : State K} → Keeps a b → Keeps b c → Keeps a c
    Keeps-trans f g = record { table = g.table; same = λ kind k. g.same kind k ∙ f.same kind k }

    module _ (now : ℕ) (entries : List (K × Entry)) (k : K) (rest : List K) (e : Entry) where
      abbrev before : State K
      before = record { entries = entries; sweep = k ∷ rest }

      reclaimed-Keeps :
          lookup dec k entries ≡ some e
          → is_idle s (refill s now e) ≡ true
          → IsTable before
          → Keeps before (record { entries = remove dec k entries; sweep = rest })
      unfolding active
      reclaimed-Keeps h idle t = record {
        table = record {
          sources = drop-IsSwept dec entries k rest t.sources;
          bounded = le_trans (length-remove-le dec k entries) t.bounded;
          budgets = Each-remove dec (Within s) k entries t.budgets;
        };
        same = λ kind j. ground (
          arith,
          lookup-remove dec k j entries,
          h,
          in_use-refill s now e kind,
          is_idle-in_use s (refill s now e) kind idle,
        );
      }

      kept-Keeps :
          lookup dec k entries ≡ some e
          → IsTable before
          → Keeps before
              (record { entries = insert dec k (refill s now e) entries; sweep = rest ++ k ∷ [] })
      unfolding active
      kept-Keeps h t = record {
        table = record {
          sources = rotate-IsSwept dec entries k e (refill s now e) rest h t.sources;
          bounded = rw (length-insert_present dec k (refill s now e) entries e h) t.bounded;
          budgets =
              Each-insert dec (Within s) k (refill s now e) entries
                (refill-Within s now e (t.budgets k e h)) t.budgets;
        };
        same = λ kind j.
            ground (
              arith,
              lookup-insert dec k j (refill s now e) entries,
              h,
              in_use-refill s now e kind,
            );
      }

    -- A round of the sweep over a table that is not empty finds its candidate.
    pub scan_cases :
        (now : ℕ) (st : State K)
        → 0 < length st.sweep
        → IsTable st
        → (st' : State K) × Keeps st st'
          × ((scan dec s now st ≡ reclaimed st')
              ⊎ ((scan dec s now st ≡ kept st') × (length st'.sweep ≡ length st.sweep)))
    unfolding scan
    scan_cases now st h t = go st.entries st.sweep h t
      where
        go :
            (entries : List (K × Entry)) (sweep : List K)
            → 0 < length sweep
            → IsTable (record { entries = entries; sweep = sweep })
            → (st' : State K) × Keeps (record { entries = entries; sweep = sweep }) st'
              × ((scan dec s now (record { entries = entries; sweep = sweep }) ≡ reclaimed st')
                  ⊎ ((scan dec s now (record { entries = entries; sweep = sweep }) ≡ kept st')
                      × (length st'.sweep ≡ length sweep)))
        go entries [] h t = absurd (omega arith)
        go entries (k ∷ rest) h t =
            let (e, found) = front_present dec entries k rest t.sources in
            elim (Bool-cases (is_idle s (refill s now e))) [
              | inl idle ↦ (
                _,
                reclaimed-Keeps now entries k rest e found idle t,
                inl (rw (found, scan, idle)),
              )
              | inr busy ↦ (
                _,
                kept-Keeps now entries k rest e found t,
                inr (rw (found, scan, busy), omega (arith, length-append {0} rest (k ∷ []))),
              )
            ]

    -- The sweep never panics, however the rounds fall out.
    pub reclaim_lem :
        (now n : ℕ) (st : State K)
        → n ≤ length st.sweep
        → IsTable st
        → (st' : State K) × (reclaim dec s now n st ≡ some st') × Keeps st st'
    unfolding reclaim
    reclaim_lem now zero st h t = (st, refl, record { table = t; same = λ kind k. refl })
    reclaim_lem now (suc n) st h t =
        let (st', keeps, cases) = scan_cases now st (omega arith) t in
        elim cases [
          | inl e ↦ (st', rw (e, reclaim), keeps)
          | inr (e, l) ↦
              let (st'', r, more) = reclaim_lem now n st' (omega arith) keeps.table in
              (st'', rw (e, reclaim) r, Keeps-trans keeps more)
        ]
