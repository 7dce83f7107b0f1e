-- ===== src/AuthBudget/Window.antt =====
-- manage/auth_budget.rs: histories of attempts by any sources.
use pari_ns.Prelude.{ℕ, ◌≤◌, List, [], ◌∷◌}
use pari_ns.Prelude.Assoc.{lookup}
use pari_ns.AuthBudget.Table.{Sources, Outcome, panic, limited, accepted, attempt, attempts_max}
use pari_ns.AuthBudget.Account.{
  inside, Tracks, start-Tracks, later-Tracks, Owed, attempt-Owed, noted,
}

-- The times of a history do not fall, from `a` on.
abbrev pub Ordered : {K : Type 0} → ℕ → List (ℕ × K) → Type 0
Ordered a [] = Unit
Ordered a ((now, peer) ∷ es) = (a ≤ now) × Ordered now es

-- The table after a call; a panic leaves it as it was.
abbrev pub after : {K : Type 0} → Sources K → Outcome K → Sources K
after st panic = st
after st (limited st') = st'
after st (accepted st') = st'

module _ {K : Type 0} (dec : Discrete K) (k : K) where
  abbrev pub note : ℕ → K → Outcome K → List ℕ → List ℕ
  note now peer (accepted st) times = noted (dec peer k) now times
  note now peer _ times = times

  -- The times at which the source `k` was let through, newest first, before those of `times`.
  unfoldable pub accepted_times : List (ℕ × K) → Sources K → List ℕ → List ℕ
  accepted_times [] st times = times
  accepted_times ((now, peer) ∷ es) st times =
      let o = attempt dec now peer st in accepted_times es (after st o) (note now peer o times)

  attempted :
      (now : ℕ) (peer : K) (times : List ℕ) (st : Sources K) (o : Outcome K)
      → Tracks now times (lookup dec k st.entries)
      → Owed dec now k times peer o
      → Tracks now (note now peer o times) (lookup dec k (after st o).entries)
  attempted now peer times st panic p w = p
  attempted now peer times st (limited st') p w = w
  attempted now peer times st (accepted st') p w = w

  capped_from :
      (es : List (ℕ × K)) (c t : ℕ) (st : Sources K) (times : List ℕ)
      → Ordered c es
      → Tracks c times (lookup dec k st.entries)
      → inside t (accepted_times es st times) ≤ attempts_max
  unfolding accepted_times
  capped_from [] c t st times o p = p.capped t
  capped_from ((now, peer) ∷ es) c t st times o p =
      let before = later-Tracks c now times (lookup dec k st.entries) o.0 p in
      let outcome = attempt dec now peer st in
      capped_from es now t (after st outcome) (note now peer outcome times) o.1
        (attempted now peer times st outcome before (attempt-Owed dec now k times peer st before))

  -- Over any history of attempts whose times do not fall, from an empty table: no source is let
  -- through more often than `attempts_max` times in any window of sixty seconds, whatever other
  -- sources attempt, and however often the sweep forgets the source and it comes back.
  pub window_bound :
      (es : List (ℕ × K)) (t : ℕ)
      → Ordered 0 es
      → inside t (accepted_times es (record { entries = []; sweep = [] }) []) ≤ attempts_max
  unfolding lookup
  window_bound es t o = capped_from es 0 t _ [] o start-Tracks
