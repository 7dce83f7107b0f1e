-- ===== src/Policy/Disk.antt =====
-- policy/radix_disk.rs, `Index::walk`: the check of an index that was read. A refusal and an index
-- out of range are none. The key keeps no bytes past the node, which are never read. The callers'
-- check of time and the digests of the visit are left out.
mod Bools
mod Entered
mod Covering
pub mod Accepted
use pari_ns.Prelude.{
  ℕ, zero, suc, ◌+◌, Bool, true, false, not, ◌&&◌, ◌||◌, Option, none, some, List, [], ◌∷◌, ◌++◌,
  ltb, leb, ◌==◌, if◌then◌else◌, length,
}
use pari_ns.Prelude.Bytes.{drop, take, nth}
use pari_ns.Policy.Key.{Bytes}
use pari_ns.Policy.Radix.{
  Group, allow_suffix, allow_exact, block_suffix, block_exact, no_slot, Node, Index,
}

pub record WalkFrame : Type 0 where
  pub node : ℕ
  pub prefix_len : ℕ
  pub next_child : ℕ
  pub allow_above : Bool
  pub block_above : Bool
  pub block_slot : ℕ
  pub entered : Bool

-- The counters of the walk, and the key of the node.
pub record Cursor : Type 0 where
  pub key : Bytes
  pub next_allocation : ℕ
  pub next_edge : ℕ
  pub visited : ℕ

abbrev is_byte : ℕ → Bool
is_byte b = leb 97 b && leb b 122 || leb 48 b && leb b 57 || b == 45 || b == 95

unfoldable pub are_bytes : Bytes → Bool
are_bytes [] = true
are_bytes (b ∷ bs) = is_byte b && are_bytes bs

-- `validate_key`, with as many rounds as the key has bytes.
unfoldable pub key_is_valid : ℕ → Bytes → Bool
key_is_valid rounds [] = true
key_is_valid zero (len ∷ rest) = false
key_is_valid (suc rounds) (len ∷ rest) =
    let others = key_is_valid rounds (drop len rest) in
    if leb 1 len && leb len 63 && leb len (length rest) && are_bytes (take len rest)
    then others
    else false

unfoldable pub validate_key : Bytes → Bool
validate_key [] = false
validate_key (b ∷ bs) = key_is_valid (length (b ∷ bs)) (b ∷ bs)

abbrev pub has_slot : Node → Group → Bool
has_slot node g = not (node.sources g == no_slot)

abbrev pub is_terminal : Node → Bool
is_terminal node =
    has_slot node allow_suffix
    || has_slot node allow_exact
    || has_slot node block_suffix
    || has_slot node block_exact

abbrev in_sources : ℕ → Node → Group → Bool
in_sources source_count node g = not (has_slot node g) || ltb (node.sources g) source_count

-- No slot is redundant beside those of the node and of the nodes above it.
unfoldable pub slots_are_valid : ℕ → WalkFrame → Node → Bool
slots_are_valid source_count frame node =
    (in_sources source_count node allow_suffix
      && in_sources source_count node allow_exact
      && in_sources source_count node block_suffix
      && in_sources source_count node block_exact)
    && (not (has_slot node allow_suffix) || not frame.allow_above)
    && (not (has_slot node allow_exact)
        || not frame.allow_above && not (has_slot node allow_suffix))
    && (not (has_slot node block_suffix) || not (frame.block_slot == node.sources block_suffix))
    && (not (has_slot node block_exact)
        || not (frame.block_slot == node.sources block_exact)
          && not (node.sources block_suffix == node.sources block_exact))

-- `windows(2)`, over `count` nodes from `j` on.
unfoldable pub rises : List Node → ℕ → ℕ → Bool
rises nodes zero j = true
rises nodes (suc zero) j = true
rises nodes (suc (suc count)) j =
    let rest = rises nodes (suc count) (suc j) in
    elim (nth j nodes) [
      | none ↦ false
      | some a ↦ elim (nth (suc j) nodes) [
        | none ↦ false
        | some b ↦ if ltb a.first_byte b.first_byte then rest else false
      ]
    ]

-- The bytes of an edge, which its node's first byte begins.
unfoldable pub put_edge : WalkFrame → Node → Cursor → Bytes → Option Cursor
put_edge frame node cur [] = none
put_edge frame node cur (b ∷ bytes) =
    if b == node.first_byte
    then some (record cur {
      key = take frame.prefix_len cur.key ++ (b ∷ bytes);
      next_edge = cur.next_edge + node.edge_len;
    })
    else none

-- The edge of a node other than the root.
unfoldable pub enter_edge : Index → WalkFrame → Node → Cursor → Option Cursor
enter_edge idx frame node cur =
    if not (node.edge_len == 0)
      && node.edge_offset == cur.next_edge
      && leb (cur.next_edge + node.edge_len) (length idx.arena)
    then put_edge frame node cur (take node.edge_len (drop cur.next_edge idx.arena))
    else none

-- The edge, but for the root.
unfoldable pub enter_below : Index → WalkFrame → Node → Cursor → Option Cursor
enter_below idx frame node cur = if frame.node == 0 then some cur else enter_edge idx frame node cur

unfoldable pub allocate : Index → ℕ → WalkFrame → Node → Cursor → Option Cursor
allocate idx source_count frame node cur =
    if node.first_child == cur.next_allocation
      && leb node.child_count 256
      && leb (cur.next_allocation + node.child_count) (length idx.nodes)
      && rises idx.nodes node.child_count node.first_child
      && (frame.node == 0 || is_terminal node || leb 2 node.child_count)
      && (not (is_terminal node) || validate_key cur.key)
      && slots_are_valid source_count frame node
    then some (record cur { next_allocation = cur.next_allocation + node.child_count })
    else none

-- The first visit of a frame.
unfoldable pub enter : Index → ℕ → WalkFrame → Node → Cursor → Option Cursor
enter idx source_count frame node cur =
    if ltb 254 (frame.prefix_len + node.edge_len)
    then none
    else elim (enter_below idx frame node (record cur { visited = cur.visited + 1 })) [
      | none ↦ none
      | some edged ↦ allocate idx source_count frame node edged
    ]

abbrev pub child_frame : WalkFrame → Node → WalkFrame
child_frame frame node = record {
  node = node.first_child + frame.next_child;
  prefix_len = frame.prefix_len + node.edge_len;
  next_child = 0;
  allow_above = frame.allow_above || has_slot node allow_suffix;
  block_above = frame.block_above || has_slot node block_suffix;
  block_slot = if has_slot node block_suffix then node.sources block_suffix else frame.block_slot;
  entered = false;
}

abbrev pub max_depth : ℕ
max_depth = 255

-- The rest of a round: the frame is done, or its next child is put on it.
unfoldable pub advance :
    WalkFrame → List WalkFrame → Node → Cursor → Option (List WalkFrame × Cursor)
advance frame frames node cur =
    if frame.next_child == node.child_count
    then some (frames, cur)
    else if ltb (suc (length frames)) max_depth
    then some (
      child_frame frame node
          ∷ (record frame { next_child = frame.next_child + 1; entered = true })
          ∷ frames,
      cur,
    )
    else none

unfoldable pub walk_round :
    Index → ℕ → WalkFrame → List WalkFrame → Cursor → Option (List WalkFrame × Cursor)
walk_round idx source_count frame frames cur = elim (nth frame.node idx.nodes) [
  | none ↦ none
  | some node ↦ elim (if frame.entered then some cur else enter idx source_count frame node cur) [
    | none ↦ none
    | some cur' ↦ advance frame frames node cur'
  ]
]

unfoldable pub walk_loop : Index → ℕ → ℕ → List WalkFrame → Cursor → Option Cursor
walk_loop idx source_count zero frames cur = none
walk_loop idx source_count (suc fuel) [] cur = some cur
walk_loop idx source_count (suc fuel) (frame ∷ frames) cur =
    elim (walk_round idx source_count frame frames cur) [
      | none ↦ none
      | some (frames', cur') ↦ walk_loop idx source_count fuel frames' cur'
    ]

abbrev pub first_frame : WalkFrame
first_frame = record {
  node = 0;
  prefix_len = 0;
  next_child = 0;
  allow_above = false;
  block_above = false;
  block_slot = no_slot;
  entered = false;
}

abbrev pub first_cursor : Cursor
first_cursor = record { key = []; next_allocation = 1; next_edge = 0; visited = 0 }

abbrev pub ends_well : Index → Option Cursor → Bool
ends_well idx none = false
ends_well idx (some cur) =
    cur.next_allocation == length idx.nodes
    && cur.visited == length idx.nodes
    && cur.next_edge == length idx.arena

-- The walk from the root; a node takes two rounds at most.
unfoldable pub walk_from : Index → ℕ → List Node → Bool
walk_from idx source_count [] = false
walk_from idx source_count (root ∷ others) =
    if root.edge_offset == 0 && root.edge_len == 0 && root.first_byte == 0 && not (is_terminal root)
    then ends_well idx (
        walk_loop idx source_count (length idx.nodes + length idx.nodes + 2) (first_frame ∷ [])
          first_cursor)
    else false

-- `Index::walk`.
unfoldable pub walk : Index → ℕ → Bool
walk idx source_count = walk_from idx source_count idx.nodes
