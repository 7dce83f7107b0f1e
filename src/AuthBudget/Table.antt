-- ===== src/AuthBudget/Table.antt =====
-- manage/auth_budget.rs, the table of sources and its sweep.
use pari_ns.Prelude.{
  ℕ, zero, suc, ◌-◌, ◌*◌, ◌/◌, ◌^◌, min, max, Option, none, some, List, [], ◌∷◌, ◌++◌, leb, ◌==◌,
  if◌then◌else◌, length,
}
use pari_ns.Prelude.Assoc.{lookup, insert, remove}
use pari_ns.Net.{IpAddr, v4, v6, IpAddr-discrete, canonical_peer}

-- Sixty seconds.
abbrev pub window : ℕ
window = 60_000_000_000

abbrev pub attempts_max : ℕ
attempts_max = 5

abbrev pub sources_max : ℕ
sources_max = 1024

abbrev pub reclaim_scan : ℕ
reclaim_scan = 16

-- The oldest attempts leave while they are a whole window old. Times are subtracted as the
-- source does, stopping at zero.
unfoldable pub expire : ℕ → List ℕ → List ℕ
expire now [] = []
expire now (at ∷ rest) = if leb window (now - at) then expire now rest else at ∷ rest

-- The last time of the queue, and `now` where it is empty.
unfoldable pub last_or : ℕ → List ℕ → ℕ
last_or now [] = now
last_or now (at ∷ []) = at
last_or now (at ∷ later ∷ rest) = last_or now (later ∷ rest)

pub record Sources (K : Type 0) : Type 0 where
  pub entries : List (K × List ℕ)
  pub sweep : List K

pub data Outcome (K : Type 0) : Type 0 where
  panic : Outcome K
  limited : Sources K → Outcome K
  accepted : Sources K → Outcome K

module _ {K : Type 0} (dec : Discrete K) where
  -- What is left of the attempts decides: nothing, and the source goes; else to the back.
  unfoldable pub put_back : K → List K → List ℕ → List (K × List ℕ) → Sources K
  put_back source rest [] entries = record { entries = remove dec source entries; sweep = rest }
  put_back source rest (at ∷ later) entries = record {
    entries = insert dec source (at ∷ later) entries;
    sweep = rest ++ source ∷ [];
  }

  -- One round of the sweep; `none` is a panic.
  unfoldable pub scan : ℕ → Sources K → Option (Sources K)
  scan now st = elim st.sweep [
    | [] ↦ none
    | source ∷ rest ↦ elim (lookup dec source st.entries) [
      | none ↦ none
      | some attempts ↦ some (put_back source rest (expire now attempts) st.entries)
    ]
  ]

  unfoldable pub sweep_rounds : ℕ → ℕ → Sources K → Option (Sources K)
  sweep_rounds now zero st = some st
  sweep_rounds now (suc n) st = elim (scan now st) [
    | none ↦ none
    | some st' ↦ sweep_rounds now n st'
  ]

  -- The part of a call behind the sweep and the insertion of a new source.
  unfoldable pub record_attempt : ℕ → K → Sources K → Outcome K
  record_attempt now peer st = elim (lookup dec peer st.entries) [
    | none ↦ panic
    | some attempts ↦
        let left = expire now attempts in
        if length left == attempts_max
        then limited (record st { entries = insert dec peer left st.entries })
        else accepted (record st {
          entries = insert dec peer (left ++ max (last_or now left) now ∷ []) st.entries;
        })
  ]

  unfoldable pub admit_source : ℕ → K → Sources K → Outcome K
  admit_source now peer st = elim (lookup dec peer st.entries) [
    | none ↦
        if length st.entries == sources_max
        then limited st
        else record_attempt now peer
            (record { entries = insert dec peer [] st.entries; sweep = st.sweep ++ peer ∷ [] })
    | some attempts ↦ record_attempt now peer st
  ]

  unfoldable pub attempt : ℕ → K → Sources K → Outcome K
  attempt now peer st = elim (sweep_rounds now (min reclaim_scan (length st.sweep)) st) [
    | none ↦ panic
    | some st' ↦ admit_source now peer st'
  ]

-- An IPv6 address without its low half.
unfoldable pub masked : IpAddr → IpAddr
masked (v4 a) = v4 a
masked (v6 a) = v6 (a / 2 ^ 64 * 2 ^ 64)

-- The identity that an attempt is charged to: an IPv4-mapped address is its IPv4 address, and any
-- other IPv6 address is its /64.
unfoldable pub identity : IpAddr → IpAddr
identity peer = masked (canonical_peer peer)

-- `attempt_at`.
unfoldable pub attempt_at : ℕ → IpAddr → Sources IpAddr → Outcome IpAddr
attempt_at now peer st = attempt IpAddr-discrete now (identity peer) st
