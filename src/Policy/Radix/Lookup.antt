-- ===== src/Policy/Radix/Lookup.antt =====
-- policy/radix.rs, `Index::lookup`: it ends, with what the rules that cover the name decide.
use pari_ns.Prelude.{ℕ, ◌+◌, ◌≡◌, true, false, Option, none, List, [], ◌∷◌, arith}
use pari_ns.Prelude.Bytes.{drop}
use pari_ns.Policy.Key.{Bytes}
use pari_ns.Policy.Radix.{
  allow_suffix, allow_exact, block_suffix, block_exact, Node, Index, Match, found, or_else, Walk,
  finished, descend, to, dead_end, lookup_round, lookup_loop, lookup,
}
use pari_ns.Policy.Radix.Stored.{IsIndex}
use pari_ns.Policy.Radix.Path.{Stop}
use pari_ns.Policy.Radix.Verdict.{covering, first, exact, verdict}
use pari_ns.Policy.Radix.Walks.{stop_of, Follows, loop-stored}

-- A verdict with a block that the walk has met before.
abbrev after : Option Match → List Stop → Option Match
after blocked stops = or_else (first allow_suffix stops) (
    or_else (exact allow_exact stops)
      (or_else blocked (or_else (first block_suffix stops) (exact block_exact stops))))

abbrev result : Option Match → List Stop → Walk
result blocked stops = finished (after blocked stops)

module _ (idx : Index) (next : ℕ → ℕ → Bytes → Option Match → Walk) (node : Node) (p byte : ℕ)
    (rest : Bytes) (blocked : Option Match) where
  round_end : lookup_round idx next node p [] blocked ≡ result blocked (stop_of node p true ∷ [])
  unfolding lookup_round first exact
  round_end = ground arith

  round_dead_end :
      descend idx node byte (byte ∷ rest) ≡ dead_end
      → lookup_round idx next node p (byte ∷ rest) blocked
        ≡ result blocked (stop_of node p false ∷ [])
  unfolding lookup_round first exact
  round_dead_end e = ground arith

  round_on :
      (c n : ℕ) (stops : List Stop)
      → descend idx node byte (byte ∷ rest) ≡ to c n
      → ((blocked' : Option Match)
          → next c (p + n) (drop n (byte ∷ rest)) blocked' ≡ result blocked' stops)
      → lookup_round idx next node p (byte ∷ rest) blocked
        ≡ result blocked (stop_of node p false ∷ stops)
  unfolding lookup_round first exact
  round_on c n stops e ih = ground (arith, ih (or_else blocked (found node.sources p block_suffix)))

lookup_loop-Follows : (idx : Index) → Follows idx (lookup_loop idx) result
unfolding lookup_loop
lookup_loop-Follows idx = record {
  at_end = λ f i p acc node at. rw (at, lookup_loop) (round_end idx _ node p 0 [] acc);
  at_dead_end = λ f i p byte rest acc node at e.
      rw (at, lookup_loop) (round_dead_end idx _ node p byte rest acc e);
  going_on = λ f i p byte rest acc node at c n stops e ih.
      rw (at, lookup_loop) (round_on idx _ node p byte rest acc c n stops e ih);
}

-- In a well-formed index every lookup ends without a panic, and its result is: the shortest suffix
-- that allows the name, or else the name's own allowance, or else the shortest suffix that blocks
-- it, or else its own block, among the stored keys that the query's key begins with.
pub lookup-verdict :
    (idx : Index)
    → IsIndex idx
    → (key : Bytes) → lookup idx key ≡ finished (verdict (covering idx key))
unfolding lookup verdict
lookup-verdict idx v key =
    loop-stored idx v (lookup_loop idx) result (lookup_loop-Follows idx) key none
