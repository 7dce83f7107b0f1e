-- ===== src/Policy/Disk/Accepted.antt =====
-- policy/radix_disk.rs, `Index::walk`: an index that it accepts is well-formed.
use pari_ns.Prelude.{
  ℕ, zero, suc, ◌+◌, ◌≤◌, ◌<◌, ◌≡◌, refl, sym, ◌∙◌, ap, subst, Bool, true, Option, none, some,
  some_eq, List, [], ◌∷◌, ◌==◌, if◌then◌else◌, length, Bool-cases, Option-cases, arith, ==_iff, ◌⊎◌,
  inl, inr,
}
use pari_ns.Prelude.Bytes.{nth}
use pari_ns.Policy.Radix.{Node, Index}
use pari_ns.Policy.Radix.Stored.{IsRising, IsIndex}
use pari_ns.Policy.Radix.Walks.{nth-some, nth-lt}
use pari_ns.Policy.Disk.{
  WalkFrame, Cursor, rises, enter, advance, walk_round, walk_loop, first_frame, first_cursor,
  ends_well, walk_from, walk,
}
use pari_ns.Policy.Disk.Bools.{if_yes, if_no, left}
use pari_ns.Policy.Disk.Entered.{HasEdge, Fact}
use pari_ns.Policy.Disk.Covering.{Covers, visit, enter-Covers, advance-Covers}

module _ (idx : Index) (source_count : ℕ) where
  visited : WalkFrame → Node → Cursor → Option Cursor
  visited f node cur = if f.entered then some cur else enter idx source_count f node cur

  visited-Covers :
      (f : WalkFrame) (fs : List WalkFrame) (node : Node) (cur cur' : Cursor)
      → nth f.node idx.nodes ≡ some node
      → Covers idx source_count (f ∷ fs) cur
      → visited f node cur ≡ some cur'
      → Covers idx source_count (visit idx source_count f ∷ fs) cur'
  unfolding visited
  visited-Covers f fs node cur cur' at w h = elim (Bool-cases f.entered) [
    | inl before ↦
        subst (λ (c : Cursor). Covers idx source_count (visit idx source_count f ∷ fs) c)
          (some_eq (sym (if_yes f.entered _ _ before) ∙ h))
          (subst (λ (b : Bool). Covers idx source_count (record f { entered = b } ∷ fs) cur) before
            w)
    | inr fresh ↦
        enter-Covers idx source_count f fs node cur cur' at fresh w
          (sym (if_no f.entered _ _ fresh) ∙ h)
  ]

  walk_round-none :
      (f : WalkFrame) (fs : List WalkFrame) (cur : Cursor)
      → nth f.node idx.nodes ≡ none
      → walk_round idx source_count f fs cur ≡ none
  unfolding walk_round
  walk_round-none f fs cur e = rw (e, walk_round) refl

  walk_round_refused :
      (f : WalkFrame) (fs : List WalkFrame) (cur : Cursor) (node : Node)
      → nth f.node idx.nodes ≡ some node
      → visited f node cur ≡ none
      → walk_round idx source_count f fs cur ≡ none
  unfolding walk_round visited
  walk_round_refused f fs cur node e v = rw (e, walk_round) (rw (v, walk_round) refl)

  walk_round-advance :
      (f : WalkFrame) (fs : List WalkFrame) (cur cur' : Cursor) (node : Node)
      → nth f.node idx.nodes ≡ some node
      → visited f node cur ≡ some cur'
      → walk_round idx source_count f fs cur ≡ advance f fs node cur'
  unfolding walk_round visited
  walk_round-advance f fs cur cur' node e v = rw (e, walk_round) (rw (v, walk_round) refl)

  round-Covers :
      (f : WalkFrame) (fs : List WalkFrame) (cur : Cursor) (r : List WalkFrame × Cursor)
      → Covers idx source_count (f ∷ fs) cur
      → walk_round idx source_count f fs cur ≡ some r
      → Covers idx source_count r.0 r.1
  round-Covers f fs cur r w h = elim (Option-cases (nth f.node idx.nodes)) [
    | inl missing ↦ absurd (cc (walk_round-none f fs cur missing))
    | inr (node, at) ↦ elim (Option-cases (visited f node cur)) [
      | inl refused ↦ absurd (cc (walk_round_refused f fs cur node at refused))
      | inr (cur', goes) ↦
          advance-Covers idx source_count f fs node cur' at
            (visited-Covers f fs node cur cur' at w goes) r
            (sym (walk_round-advance f fs cur cur' node at goes) ∙ h)
    ]
  ]

  loop-Covers :
      (fuel : ℕ) (frames : List WalkFrame) (cur out : Cursor)
      → Covers idx source_count frames cur
      → walk_loop idx source_count fuel frames cur ≡ some out
      → Covers idx source_count [] out
  unfolding walk_loop
  loop-Covers zero frames cur out w h = cc
  loop-Covers (suc fuel) [] cur out w h = subst (Covers idx source_count []) (some_eq h) w
  loop-Covers (suc fuel) (f ∷ fs) cur out w h =
      elim (Option-cases (walk_round idx source_count f fs cur)) [
        | inl stopped ↦ absurd (ground arith)
        | inr (r, goes) ↦
            loop-Covers fuel r.0 r.1 out (round-Covers f fs cur r w goes) (ground arith)
      ]

  -- The nodes whose first bytes rise have edges, so that they are the children that a walk needs.
  rises-IsRising :
      (count j low : ℕ)
      → 0 < j
      → j + count ≤ length idx.nodes
      → ((i : ℕ) (node : Node)
          → i < length idx.nodes
          → nth i idx.nodes ≡ some node
          → (i ≡ 0) ⊎ HasEdge idx source_count node)
      → ((node : Node) → nth j idx.nodes ≡ some node → low ≤ node.first_byte)
      → rises idx.nodes count j ≡ true
      → IsRising idx low count j
  unfolding rises
  rises-IsRising zero j low pos range edged above h = tt
  rises-IsRising (suc zero) j low pos range edged above h =
      let (child, at) = nth-some j idx.nodes (omega arith) in
      elim (edged j child (omega arith) at) [
        | inl z ↦ absurd (omega arith)
        | inr (bytes, e) ↦ (child, bytes, at, e, above child at, tt)
      ]
  rises-IsRising (suc (suc count)) j low pos range edged above h =
      let (child, at) = nth-some j idx.nodes (omega arith) in
      let (next, at') = nth-some (suc j) idx.nodes (omega arith) in
      let (less, rest) = rises_step j count child next at at' h in
      elim (edged j child (omega arith) at) [
        | inl z ↦ absurd (omega arith)
        | inr (bytes, e) ↦ (
          child,
          bytes,
          at,
          e,
          above child at,
          rises-IsRising (suc count) (suc j) (suc child.first_byte) (omega arith) (omega arith)
              edged
              (λ node e'.
                ground (arith, less, ap (λ (n : Node). n.first_byte) (some_eq (sym e' ∙ at'))))
              rest,
        )
      ]
    where
      rises_step :
          (j count : ℕ) (a b : Node)
          → nth j idx.nodes ≡ some a
          → nth (suc j) idx.nodes ≡ some b
          → rises idx.nodes (suc (suc count)) j ≡ true
          → (a.first_byte < b.first_byte) × (rises idx.nodes (suc count) (suc j) ≡ true)
      rises_step j count a b e e' h = ground arith

  first_Covers : Covers idx source_count (first_frame ∷ []) first_cursor
  first_Covers = record {
    covered = λ i h. inr (inl (inl (refl, omega arith)));
    framed =
        (record { allocated = omega arith; children = λ n e b. cc; unvisited = λ e. refl }, tt);
  }

  ended :
      (out : Option Cursor)
      → ends_well idx out ≡ true
      → (cur : Cursor) × (out ≡ some cur) × (cur.next_allocation ≡ length idx.nodes)
  ended none h = cc
  ended (some cur) h = (
    cur,
    refl,
    (==_iff cur.next_allocation (length idx.nodes)).0
        (left _ (cur.visited == length idx.nodes) (left _ (cur.next_edge == length idx.arena) h)),
  )

  walk_from-Covers :
      (nodes : List Node)
      → walk_from idx source_count nodes ≡ true
      → (0 < length nodes)
        × ((cur : Cursor) × Covers idx source_count [] cur
            × (cur.next_allocation ≡ length idx.nodes))
  unfolding walk_from
  walk_from-Covers [] h = cc
  walk_from-Covers (root ∷ others) h =
      let out =
        walk_loop idx source_count (length idx.nodes + length idx.nodes + 2) (first_frame ∷ [])
          first_cursor in
      let (cur, is_out, all) = ended out (ground arith) in
      (
        omega arith,
        (cur, loop-Covers _ (first_frame ∷ []) first_cursor cur first_Covers is_out, all),
      )

  -- An index that the walk accepts is well-formed: the children of a node come after it and are in
  -- range, and their edges are in the arena, not empty, and rise by their first bytes.
  pub walk-IsIndex : walk idx source_count ≡ true → IsIndex idx
  unfolding walk
  walk-IsIndex h =
      let (some_nodes, (cur, w, all)) = walk_from-Covers idx.nodes h in
      let ok : (i : ℕ) (node : Node)
          → nth i idx.nodes ≡ some node
          → (next : ℕ) × (i < next) × Fact idx source_count i next node =
        λ i node at. elim (w.covered i (omega (arith, all, nth-lt i idx.nodes at))) [
          | inl good ↦ good node at
          | inr bad ↦ absurd bad
        ] in
      record {
        rooted = some_nodes;
        in_range = λ i node at.
            let (next, later, fact) = ok i node at in
            (omega (arith, fact.at_next, later), fact.in_range);
        rising = λ i node at.
            let (next, later, fact) = ok i node at in
            rises-IsRising node.child_count node.first_child 0 (omega (arith, fact.at_next, later))
              fact.in_range (λ j child small here. let (n, l, f) = ok j child here in f.edged)
              (λ child here. omega arith) fact.rising;
      }
