-- ===== src/Tests/Limits.antt =====
-- The limiter on small tables, keyed by numbers.
use pari_ns.Prelude.{
  subst, Option, some_eq, ℕ, ◌+◌, ◌-◌, ◌*◌, ◌≤◌, ◌≡◌, refl, true, some, List, [], ◌∷◌, arith,
  ℕ_discrete,
}
use pari_ns.Prelude.Assoc.{lookup, insert, remove}
use pari_ns.Prelude.Sweep.{nil-IsSwept}
use pari_ns.Limits.Settings.{Settings, default}
use pari_ns.Limits.Table.{
  Entry, Kind, query, table_full, State, refused, admitted, token, refill, is_idle, charge, fresh,
  scan, reclaim, insert_source, add_source, settle, charge_source, then_charge, acquire, release,
  release_kind,
}
use pari_ns.Limits.Invariant.{IsTable, active}
use pari_ns.Limits.Rate
use pari_ns.Limits.Rate.{Event, asks, drops, granted}
use pari_ns.Limits.Permits
use pari_ns.Limits.Permits.{start, next, admits, IsSafe, tally}
use pari_ns.Limits.Limiter.{Limiter}
use pari_ns.Tests.Cidr.{cidr}

program : Unit {0}
unfolding refill is_idle charge fresh scan reclaim insert_source add_source settle charge_source
    then_charge acquire release release_kind lookup insert remove ℕ_discrete granted
program = tt

-- One source at most, one query a second, a burst of two.
abbrev tight : Settings
tight = record default { enabled = true; rate_per_sec = 1; burst = 2; max_sources = 1 }

abbrev empty : State ℕ
empty = record { entries = []; sweep = [] }

-- Source 7 after its first query at time 5.
abbrev spent : Entry
spent = record { credit = token; updated = 5; queries = 1; connections = 0 }

abbrev one : State ℕ
one = record { entries = (7, spent) ∷ []; sweep = 7 ∷ [] }

first_query : acquire ℕ_discrete tight 5 query 7 empty ≡ admitted one
unfolding program
first_query = refl

-- The table is full, and its only source is active.
second_source :
    acquire ℕ_discrete tight 6 query 8 one
    ≡ refused table_full (record {
      entries = (7, record spent { credit = token + 1; updated = 6 }) ∷ [];
      sweep = 7 ∷ [];
    })
unfolding program
second_source = refl

-- Three queries, the last one early; then one more, a second later.
abbrev history : List (Event ℕ)
history =
    asks 5 query 7
    ∷ asks 6 query 7
    ∷ asks 7 query 7
    ∷ drops query 7
    ∷ drops query 7
    ∷ asks (token + 7) query 7
    ∷ []

history_grants : granted ℕ_discrete tight 7 history empty ≡ 3
unfolding program
history_grants = refl

empty-IsTable : (s : Settings) → IsTable ℕ_discrete s empty
unfolding lookup
empty-IsTable s = record {
  sources = nil-IsSwept ℕ_discrete;
  bounded = omega arith;
  budgets = λ k e h. cc;
}

Reach-IsSafe_example : IsSafe ℕ_discrete tight (record { table = one; held = (query, 7) ∷ [] })
Reach-IsSafe_example =
    Permits.Reach-IsSafe ℕ_discrete tight (next start (admits 5 query 7 one first_query))

Reach-release_example :
    (st : State ℕ) × (release ℕ_discrete 7 query one ≡ some st)
    × ((other : Kind) (j : ℕ) → active ℕ_discrete other st j ≡ tally ℕ_discrete tight other j [])
Reach-release_example =
    Permits.Reach-release ℕ_discrete tight query 7 [] []
      (next start (admits 5 query 7 one first_query)) refl

granted_bound_example :
    granted ℕ_discrete tight 7 history empty * token ≤ 2 * token + (token + 7 - 5) * 1
granted_bound_example = Rate.granted_bound ℕ_discrete tight 7 5 history (token + 7) (omega arith)

abbrev limiter : Limiter cidr
limiter = record { settings = tight; state = some (record { entries = []; sweep = [] }) }

limiter_empty :
    (st : State (cidr.Net))
    → ◌≡◌ {A = Option (State (cidr.Net))} limiter.state (some st)
    → IsTable cidr.net_discrete tight st
unfolding lookup
limiter_empty st e = subst (IsTable cidr.net_discrete tight) (some_eq e) (record {
  sources = nil-IsSwept cidr.net_discrete;
  bounded = omega arith;
  budgets = λ k e h. cc;
})
