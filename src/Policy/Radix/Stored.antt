-- ===== src/Policy/Radix/Stored.antt =====
-- policy/radix.rs: an index as the list of its rules, and the rules that cover a name.
use pari_ns.Prelude.{
  ℕ, zero, suc, ◌+◌, ◌≤◌, ◌<◌, ◌≡◌, true, false, Option, none, some, List, [], ◌∷◌, ◌++◌, length,
}
use pari_ns.Prelude.Bytes.{nth, same_bytes}
use pari_ns.Policy.Key.{Bytes}
use pari_ns.Policy.Radix.{Group, Node, Index, edge}

abbrev pub Sources : Type 0
Sources = Group → ℕ

-- The slots of a key, from the place in the tree that the key is relative to.
abbrev pub Table : Type 0
Table = List (Bytes × Sources)

unfoldable pub under : Bytes → Table → Table
under bytes [] = []
under bytes ((k, s) ∷ t) = (bytes ++ k, s) ∷ under bytes t

unfoldable pub below : Index → ℕ → Table → Table
below idx j t = elim (nth j idx.nodes) [
  | none ↦ []
  | some node ↦ elim (edge idx node) [ none ↦ [] | some bytes ↦ under bytes t ]
]

unfoldable pub children : Index → (ℕ → Table) → ℕ → ℕ → Table
children idx t zero j = []
children idx t (suc count) j = below idx j (t j) ++ children idx t count (suc j)

-- The keys at a node and below it.
unfoldable pub keys_at : Index → ℕ → ℕ → Table
keys_at idx zero index = []
keys_at idx (suc fuel) index = elim (nth index idx.nodes) [
  | none ↦ []
  | some node ↦
      ([], node.sources) ∷ children idx (keys_at idx fuel) node.child_count node.first_child
]

-- All keys of the index. A node comes before its children, so that no path is longer.
unfoldable pub stored : Index → Table
stored idx = keys_at idx (length idx.nodes) 0

unfoldable pub find : Bytes → Table → Option Sources
find key [] = none
find key ((k, s) ∷ t) = elim (same_bytes key k) [ true ↦ some s | false ↦ find key t ]

-- The first bytes of `count` nodes from `j` on rise, and are above `low`.
abbrev pub IsRising : Index → ℕ → ℕ → ℕ → Type 0
IsRising idx low zero j = Unit {0}
IsRising idx low (suc count) j =
    (child : Node) × (bytes : Bytes) × (nth j idx.nodes ≡ some child)
    × (edge idx child ≡ some (child.first_byte ∷ bytes))
    × (low ≤ child.first_byte)
    × IsRising idx (suc child.first_byte) count (suc j)

-- What the walk over a derived index ensures and the build gives: the children of a node are
-- nodes after it, in range; their edges are in the arena, not empty, and rise by their first bytes.
pub record IsIndex (idx : Index) : Type 0 where
  pub rooted : 0 < length idx.nodes
  pub in_range :
      (i : ℕ) (node : Node)
      → nth i idx.nodes ≡ some node
      → (i < node.first_child) × (node.first_child + node.child_count ≤ length idx.nodes)
  pub rising :
      (i : ℕ) (node : Node)
      → nth i idx.nodes ≡ some node
      → IsRising idx 0 node.child_count node.first_child
