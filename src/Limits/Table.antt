-- ===== src/Limits/Table.antt =====
-- limits.rs, the table of sources: refill, reclamation, admission and the drop of a permit. A
-- panic of the source (an `unwrap` of nothing, a counter below zero) is a result of its own.
use pari_ns.Prelude.{
  ℕ, zero, suc, ◌+◌, ◌-◌, ◌*◌, ◌%◌, min, Bool, ◌&&◌, Option, none, some, List, [], ◌∷◌, ◌++◌, ltb,
  leb, ◌==◌, if◌then◌else◌, length,
}
use pari_ns.Prelude.Assoc.{lookup, insert, remove}
use pari_ns.Limits.Settings.{Settings}

-- The cost of one query: one second's worth of nanoseconds at a rate of one.
abbrev pub token : ℕ
token = 1000000000

abbrev pub reclaim_scan : ℕ
reclaim_scan = 16

abbrev pub u64_mod : ℕ
u64_mod = 0x1_0000_0000_0000_0000

pub data Denied : Type 0 where
  rate inflight connections_full table_full : Denied

pub data Kind : Type 0 where
  query connection : Kind

pub record Entry : Type 0 where
  pub credit : ℕ
  pub updated : ℕ
  pub queries : ℕ
  pub connections : ℕ

-- The clock of an entry never moves back. The sum is a `u128`; the cast to `u64` is kept.
unfoldable pub refill : Settings → ℕ → Entry → Entry
refill s now e =
    if ltb e.updated now
    then record e {
      credit = min (e.credit + (now - e.updated) * s.rate_per_sec) (s.burst * token) % u64_mod;
      updated = now;
    }
    else e

unfoldable pub is_idle : Settings → Entry → Bool
is_idle s e = e.queries == 0 && e.connections == 0 && e.credit == s.burst * token

pub data Charge : Type 0 where
  deny : Denied → Charge
  pay : Entry → Charge

unfoldable pub charge : Settings → Kind → Entry → Charge
charge s query e =
    if leb s.max_inflight e.queries
    then deny inflight
    else if ltb e.credit token
    then deny rate
    else pay (record e { credit = e.credit - token; queries = e.queries + 1 })
charge s connection e =
    if leb s.max_connections e.connections
    then deny connections_full
    else pay (record e { connections = e.connections + 1 })

unfoldable pub fresh : Settings → ℕ → Entry
fresh s now = record { credit = s.burst * token; updated = now; queries = 0; connections = 0 }

pub record State (K : Type 0) : Type 0 where
  pub entries : List (K × Entry)
  pub sweep : List K

pub data Outcome (K : Type 0) : Type 0 where
  panic : Outcome K
  refused : Denied → State K → Outcome K
  admitted : State K → Outcome K

pub data Scan (K : Type 0) : Type 0 where
  stuck : Scan K
  reclaimed : State K → Scan K
  kept : State K → Scan K

module _ {K : Type 0} (dec : Discrete K) (s : Settings) where
  -- One round of the sweep: the front candidate is refilled, and removed or put back.
  unfoldable pub scan : ℕ → State K → Scan K
  scan now st = elim st.sweep [
    | [] ↦ stuck
    | candidate ∷ rest ↦ elim (lookup dec candidate st.entries) [
      | none ↦ stuck
      | some e ↦
          let e' = refill s now e in
          if is_idle s e'
          then reclaimed (record { entries = remove dec candidate st.entries; sweep = rest })
          else kept (record {
            entries = insert dec candidate e' st.entries;
            sweep = rest ++ candidate ∷ [];
          })
    ]
  ]

  -- The loop, which breaks at the first entry that goes; `none` is a panic.
  unfoldable pub reclaim : ℕ → ℕ → State K → Option (State K)
  reclaim now zero st = some st
  reclaim now (suc n) st = elim (scan now st) [
    | stuck ↦ none
    | reclaimed st' ↦ some st'
    | kept st' ↦ reclaim now n st'
  ]

  unfoldable pub insert_source : ℕ → K → State K → Outcome K
  insert_source now source st =
      if length st.entries == s.max_sources
      then refused table_full st
      else admitted (record {
        entries = insert dec source (fresh s now) st.entries;
        sweep = st.sweep ++ source ∷ [];
      })

  -- The branch for a source that the table does not hold.
  unfoldable pub add_source : ℕ → K → State K → Outcome K
  add_source now source st =
      if length st.entries == s.max_sources
      then elim (reclaim now (min reclaim_scan (length st.sweep)) st) [
        | none ↦ panic
        | some st' ↦ insert_source now source st'
      ]
      else insert_source now source st

  unfoldable pub settle : K → Entry → State K → Charge → Outcome K
  settle source e st (deny d) = refused d (record st { entries = insert dec source e st.entries })
  settle source e st (pay e') = admitted (record st { entries = insert dec source e' st.entries })

  -- The last part of `acquire_at`: refill the source's entry and charge it.
  unfoldable pub charge_source : ℕ → Kind → K → State K → Outcome K
  charge_source now kind source st = elim (lookup dec source st.entries) [
    | none ↦ panic
    | some e ↦ let e' = refill s now e in settle source e' st (charge s kind e')
  ]

  unfoldable pub then_charge : ℕ → Kind → K → Outcome K → Outcome K
  then_charge now kind source panic = panic
  then_charge now kind source (refused d st) = refused d st
  then_charge now kind source (admitted st) = charge_source now kind source st

  unfoldable pub acquire : ℕ → Kind → K → State K → Outcome K
  acquire now kind source st = elim (lookup dec source st.entries) [
    | none ↦ then_charge now kind source (add_source now source st)
    | some e ↦ charge_source now kind source st
  ]

-- The drop of a permit; `none` is the panic of an entry that is gone or a counter at zero.
unfoldable pub release_kind : Kind → Entry → Option Entry
release_kind query e = if e.queries == 0 then none else some (record e { queries = e.queries - 1 })
release_kind connection e =
    if e.connections == 0 then none else some (record e { connections = e.connections - 1 })

module _ {K : Type 0} (dec : Discrete K) where
  unfoldable pub release : K → Kind → State K → Option (State K)
  release source kind st = elim (lookup dec source st.entries) [
    | none ↦ none
    | some e ↦ elim (release_kind kind e) [
      | none ↦ none
      | some e' ↦ some (record st { entries = insert dec source e' st.entries })
    ]
  ]
