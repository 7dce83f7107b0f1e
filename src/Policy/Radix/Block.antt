-- ===== src/Policy/Radix/Block.antt =====
-- policy/radix.rs, `Index::block_match`: it ends, with the covering block rule of least rank.
use pari_ns.Prelude.{
  ℕ, ◌+◌, ◌≡◌, refl, true, false, Option, none, some, List, [], ◌∷◌, arith, if◌then◌else◌, ◌⊎◌, inl,
  inr, Bool-cases,
}
use pari_ns.Prelude.Bytes.{drop}
use pari_ns.Policy.Key.{Bytes}
use pari_ns.Policy.Radix.{
  block_suffix, Node, Index, Match, found, Walk, finished, descend, to, dead_end, block_round,
  block_loop, block_match, consider,
}
use pari_ns.Policy.Radix.Stored.{IsIndex}
use pari_ns.Policy.Radix.Path.{Stop}
use pari_ns.Policy.Radix.Verdict.{covering, first, exact, candidates, least, is_allowed}
use pari_ns.Policy.Radix.Walks.{stop_of, Follows, loop-stored}
use pari_ns.Policy.Radix.Rank.{IsOneOf, IsLeast, least-Chooses}

abbrev result : ℕ → Option Match → List Stop → Walk
result local_slots best stops =
    finished (if is_allowed stops then none else least local_slots best (candidates stops))

module _ (idx : Index) (slots : ℕ) (next : ℕ → ℕ → Bytes → Option Match → Walk) (node : Node)
    (p byte : ℕ) (rest : Bytes) (best : Option Match) where
  round_end :
      block_round idx slots next node p [] best ≡ result slots best (stop_of node p true ∷ [])
  unfolding block_round first exact is_allowed candidates least consider
  round_end = ground arith

  round_dead_end :
      descend idx node byte (byte ∷ rest) ≡ dead_end
      → block_round idx slots next node p (byte ∷ rest) best
        ≡ result slots best (stop_of node p false ∷ [])
  unfolding block_round first exact is_allowed candidates least consider
  round_dead_end e = ground arith

  round_on :
      (c n : ℕ) (stops : List Stop)
      → descend idx node byte (byte ∷ rest) ≡ to c n
      → ((best' : Option Match)
          → next c (p + n) (drop n (byte ∷ rest)) best' ≡ result slots best' stops)
      → block_round idx slots next node p (byte ∷ rest) best
        ≡ result slots best (stop_of node p false ∷ stops)
  unfolding block_round first exact is_allowed candidates least consider
  round_on c n stops e ih =
      ground (arith, ih (consider slots best (found node.sources p block_suffix)))

block_loop-Follows : (idx : Index) (slots : ℕ) → Follows idx (block_loop idx slots) (result slots)
unfolding block_loop
block_loop-Follows idx slots = record {
  at_end = λ f i p acc node at. rw (at, block_loop) (round_end idx slots _ node p 0 [] acc);
  at_dead_end = λ f i p byte rest acc node at e.
      rw (at, block_loop) (round_dead_end idx slots _ node p byte rest acc e);
  going_on = λ f i p byte rest acc node at c n stops e ih.
      rw (at, block_loop) (round_on idx slots _ node p byte rest acc c n stops e ih);
}

-- In a well-formed index every search for a block rule ends without a panic. It gives none where a
-- stored suffix or the name itself is allowed, and otherwise what the rank chooses of the block
-- rules that cover the name.
pub block_match-least :
    (idx : Index)
    → IsIndex idx
    → (key : Bytes) (slots : ℕ)
    → block_match idx key slots
      ≡ finished (
          if is_allowed (covering idx key)
          then none
          else least slots none (candidates (covering idx key)))
unfolding block_match
block_match-least idx v key slots =
    loop-stored idx v (block_loop idx slots) (result slots) (block_loop-Follows idx slots) key none

-- A found block rule is of least rank among those that cover the name, and one of them.
pub record IsChosen (slots : ℕ) (m : Match) (ms : List Match) : Type 0 where
  pub member : IsOneOf m ms
  pub least_rank : IsLeast slots m ms

pub least-none :
    (slots : ℕ) (ms : List Match)
    → ((ms ≡ []) × (least slots none ms ≡ none))
      ⊎ ((m : Match) × (least slots none ms ≡ some m) × IsChosen slots m ms)
unfolding least consider
least-none slots [] = inl (refl, refl)
least-none slots (x ∷ ms) =
    let (m, c) = least-Chooses slots x ms in
    inr (m, c.chosen, record { member = c.member; least_rank = (c.not_above, c.least_rank) })

module _ (idx : Index) (v : IsIndex idx) (key : Bytes) (slots : ℕ) where
  -- Where a search in a well-formed index finds a block rule, it is one of those that cover the name, none of them has a
  -- lower rank, and nothing allows the name.
  pub block_match-IsChosen :
      (m : Match)
      → block_match idx key slots ≡ finished (some m)
      → IsChosen slots m (candidates (covering idx key)) × (is_allowed (covering idx key) ≡ false)
  block_match-IsChosen m h = elim (Bool-cases (is_allowed (covering idx key))) [
    | inl allowed ↦ absurd (ground (arith, block_match-least idx v key slots))
    | inr free ↦ elim (least-none slots (candidates (covering idx key))) [
      | inl (_, nothing) ↦ absurd (ground (arith, block_match-least idx v key slots))
      | inr (best, chosen, is_chosen) ↦
          let same : m ≡ best = ground (arith, block_match-least idx v key slots) in
          rw same (is_chosen, free)
    ]
  ]
