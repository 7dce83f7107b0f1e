-- ===== src/Policy/Disk/Entered.antt =====
-- policy/radix_disk.rs, `Index::walk`: what the first visit of a node has checked.
use pari_ns.Prelude.{
  ℕ, ◌+◌, ◌≤◌, ◌≡◌, sym, ◌∙◌, ap, Bool, true, not, ◌&&◌, ◌||◌, some, [], ◌∷◌, ltb, leb, ◌==◌,
  length, Bool-cases, Option-cases, arith, ==_iff, leb→le, ◌⊎◌, inl, inr,
}
use pari_ns.Prelude.Bytes.{take, drop}
use pari_ns.Policy.Key.{Bytes}
use pari_ns.Policy.Radix.{Node, Index, edge}
use pari_ns.Policy.Disk.{
  WalkFrame, Cursor, rises, put_edge, enter_below, enter_edge, is_terminal, validate_key,
  slots_are_valid, allocate, enter,
}
use pari_ns.Policy.Disk.Bools.{if_some, if_else_none, if_none_else, left, right}

module _ (idx : Index) (source_count : ℕ) where
  abbrev pub HasEdge : Node → Type 0
  HasEdge node = (bytes : Bytes) × (edge idx node ≡ some (node.first_byte ∷ bytes))

  put_edge_lem :
      (f : WalkFrame) (node : Node) (cur cur' : Cursor) (bs : Bytes)
      → put_edge f node cur bs ≡ some cur'
      → (cur'.next_allocation ≡ cur.next_allocation)
        × ((bytes : Bytes) × (bs ≡ node.first_byte ∷ bytes))
  unfolding put_edge
  put_edge_lem f node cur cur' [] h = cc
  put_edge_lem f node cur cur' (b ∷ bytes) h =
      let (same, is_cur) = if_some (b == node.first_byte) _ cur' h in
      (
        ap (λ (c : Cursor). c.next_allocation) (sym is_cur),
        (bytes, ap (λ (x : ℕ). x ∷ bytes) ((==_iff b node.first_byte).0 same)),
      )

  edge_slice :
      (node : Node) (n : ℕ) (bs : Bytes)
      → node.edge_offset ≡ n
      → n + node.edge_len ≤ length idx.arena
      → take node.edge_len (drop n idx.arena) ≡ bs
      → edge idx node ≡ some bs
  unfolding edge
  edge_slice node n bs e fits is_bs = rw e (rw is_bs (ground arith))

  enter_edge-HasEdge :
      (f : WalkFrame) (node : Node) (cur cur' : Cursor)
      → enter_edge idx f node cur ≡ some cur'
      → (cur'.next_allocation ≡ cur.next_allocation) × HasEdge node
  unfolding enter_edge
  enter_edge-HasEdge f node cur cur' h =
      let (test, put) =
        if_else_none
          (not (node.edge_len == 0)
            && node.edge_offset == cur.next_edge
            && leb (cur.next_edge + node.edge_len) (length idx.arena))
          _ cur' h in
      let (same, (bytes, is_bytes)) =
        put_edge_lem f node cur cur' (take node.edge_len (drop cur.next_edge idx.arena)) put in
      (
        same,
        (
          bytes,
          edge_slice node cur.next_edge (node.first_byte ∷ bytes) (ground arith) (ground arith)
              is_bytes,
        ),
      )

  -- What the first visit of a node finds.
  pub record Fact (i next : ℕ) (node : Node) : Type 0 where
    pub at_next : node.first_child ≡ next
    pub in_range : node.first_child + node.child_count ≤ length idx.nodes
    pub rising : rises idx.nodes node.child_count node.first_child ≡ true
    pub edged : (i ≡ 0) ⊎ HasEdge node

  allocate-Fact :
      (f : WalkFrame) (node : Node) (cur cur' : Cursor)
      → allocate idx source_count f node cur ≡ some cur'
      → (cur'.next_allocation ≡ cur.next_allocation + node.child_count)
        × (node.first_child ≡ cur.next_allocation)
        × (node.first_child + node.child_count ≤ length idx.nodes)
        × (rises idx.nodes node.child_count node.first_child ≡ true)
  unfolding allocate
  allocate-Fact f node cur cur' h =
      let (passed, same) =
        if_some (at_next && one && two && three && four && five && six)
          (record cur { next_allocation = cur.next_allocation + node.child_count }) cur' h in
      let to_rise = left _ four (left _ five (left _ six passed)) in
      let to_range = left _ three to_rise in
      let first : node.first_child ≡ cur.next_allocation =
        (==_iff node.first_child cur.next_allocation).0 (left _ one (left _ two to_range)) in
      (
        ap (λ (c : Cursor). c.next_allocation) (sym same),
        first,
        omega (
          arith,
          leb→le (cur.next_allocation + node.child_count) (length idx.nodes)
              (right (at_next && one) two to_range),
          first,
        ),
        right (at_next && one && two) three to_rise,
      )
    where
      at_next : Bool
      at_next = node.first_child == cur.next_allocation

      one : Bool
      one = leb node.child_count 256

      two : Bool
      two = leb (cur.next_allocation + node.child_count) (length idx.nodes)

      three : Bool
      three = rises idx.nodes node.child_count node.first_child

      four : Bool
      four = f.node == 0 || is_terminal node || leb 2 node.child_count

      five : Bool
      five = not (is_terminal node) || validate_key cur.key

      six : Bool
      six = slots_are_valid source_count f node

  enter_below_lem :
      (f : WalkFrame) (node : Node) (cur cur' : Cursor)
      → enter_below idx f node cur ≡ some cur'
      → (cur'.next_allocation ≡ cur.next_allocation) × ((f.node ≡ 0) ⊎ HasEdge node)
  unfolding enter_below
  enter_below_lem f node cur cur' h = elim (Bool-cases (f.node == 0)) [
    | inl root ↦ (ground arith, inl ((==_iff f.node 0).0 root))
    | inr below ↦
        let (same, has) = enter_edge-HasEdge f node cur cur' (ground arith) in (same, inr has)
  ]

  pub enter-Fact :
      (f : WalkFrame) (node : Node) (cur cur' : Cursor)
      → enter idx source_count f node cur ≡ some cur'
      → Fact f.node cur.next_allocation node
        × (cur'.next_allocation ≡ cur.next_allocation + node.child_count)
  unfolding enter
  enter-Fact f node cur cur' h =
      let at : Cursor = record cur { visited = cur.visited + 1 } in
      let visits = if_none_else (ltb 254 (f.prefix_len + node.edge_len)) _ cur' h in
      elim (Option-cases (enter_below idx f node at)) [
        | inl refused ↦ absurd (ground arith)
        | inr (edged, is_edged) ↦
            let (same, has) = enter_below_lem f node at edged is_edged in
            let (next, first, range, up) =
              allocate-Fact f node edged cur' (ground (arith, visits)) in
            (
              record { at_next = first ∙ same; in_range = range; rising = up; edged = has },
              omega (arith, next, same),
            )
      ]
