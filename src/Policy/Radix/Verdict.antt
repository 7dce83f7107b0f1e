-- ===== src/Policy/Radix/Verdict.antt =====
-- policy/radix.rs: what the rules that cover a name decide, with no word of the index's nodes.
use pari_ns.Prelude.{ℕ, Bool, true, false, ◌||◌, Option, none, some, List, [], ◌∷◌, if◌then◌else◌}
use pari_ns.Policy.Key.{Bytes}
use pari_ns.Policy.Radix.{
  Group, allow_suffix, allow_exact, block_suffix, block_exact, Index, Match, found, or_else,
  consider,
}
use pari_ns.Policy.Radix.Stored.{stored, find}
use pari_ns.Policy.Radix.Path.{Stop, path}

-- The stored keys that a query's key begins with.
unfoldable pub covering : Index → Bytes → List Stop
covering idx key = path (λ k. find k (stored idx)) 0 key

abbrev pub match_at : Group → Stop → Option Match
match_at g stop = found stop.sources stop.position g

-- The match of the first stop, which has the shortest key, in the group.
unfoldable pub first : Group → List Stop → Option Match
first g [] = none
first g (stop ∷ stops) = or_else (match_at g stop) (first g stops)

abbrev pub whole_at : Group → Stop → Option Match
whole_at g stop = if stop.whole then match_at g stop else none

-- The match of the query's whole key in the group.
unfoldable pub exact : Group → List Stop → Option Match
exact g [] = none
exact g (stop ∷ stops) = or_else (whole_at g stop) (exact g stops)

-- A suffix that allows, or else the name allowed, or else the shortest suffix that blocks, or else
-- the name blocked.
unfoldable pub verdict : List Stop → Option Match
verdict stops = or_else (first allow_suffix stops) (
    or_else (exact allow_exact stops)
      (or_else (first block_suffix stops) (exact block_exact stops)))

abbrev pub is_some : Option Match → Bool
is_some none = false
is_some (some m) = true

unfoldable pub is_allowed : List Stop → Bool
is_allowed stops = is_some (first allow_suffix stops) || is_some (exact allow_exact stops)

abbrev pub with_match : Option Match → List Match → List Match
with_match none ms = ms
with_match (some m) ms = m ∷ ms

-- The block rules that cover the name: suffixes, and the name's own.
unfoldable pub candidates : List Stop → List Match
candidates [] = []
candidates (stop ∷ stops) =
    with_match (match_at block_suffix stop)
      (with_match (whole_at block_exact stop) (candidates stops))

unfoldable pub least : ℕ → Option Match → List Match → Option Match
least local_slots best [] = best
least local_slots best (m ∷ ms) = least local_slots (consider local_slots best (some m)) ms
