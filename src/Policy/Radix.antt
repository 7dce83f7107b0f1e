-- ===== src/Policy/Radix.antt =====
-- policy/radix.rs: the compressed radix index of the rules' keys, and the two walks through it.
-- A walk carries the position in the query's key and the key's bytes from there on. The standard
-- library's search over the children, whose first bytes rise, is the search for the one child with
-- the byte.
pub mod Stored
pub mod Children
pub mod Path
pub mod Descends
pub mod Verdict
pub mod Walks
pub mod Lookup
pub mod Block
pub mod Rank
pub mod Members
use pari_ns.Prelude.{
  ℕ, zero, suc, ◌+◌, ◌%◌, Bool, true, false, not, ◌&&◌, ◌||◌, Option, none, some, List, [], ◌∷◌,
  ltb, leb, ◌==◌, if◌then◌else◌, length,
}
use pari_ns.Prelude.Bytes.{drop, take, nth, starts_with}
use pari_ns.Policy.Key.{Bytes}

pub data Group : Type 0 where
  allow_suffix : Group
  allow_exact : Group
  block_suffix : Group
  block_exact : Group

abbrev pub no_slot : ℕ
no_slot = 65535

pub record Node : Type 0 where
  pub edge_offset : ℕ
  pub first_child : ℕ
  pub child_count : ℕ
  pub edge_len : ℕ
  pub first_byte : ℕ
  pub sources : Group → ℕ

pub record Index : Type 0 where
  pub nodes : List Node
  pub arena : Bytes

pub record Match : Type 0 where
  pub group : Group
  pub source_slot : ℕ
  pub matched_key_len : ℕ

-- How a walk ends: with its result, at an index out of range, or at the end of the fuel.
pub data Walk : Type 0 where
  finished : Option Match → Walk
  panicked : Walk
  spent : Walk

-- The closure `found` of a walk, at a node and a position.
unfoldable pub found : (Group → ℕ) → ℕ → Group → Option Match
found sources position group =
    if sources group == no_slot
    then none
    else some
        (record { group = group; source_slot = sources group; matched_key_len = position % 65536 })

abbrev pub or_else : Option Match → Option Match → Option Match
or_else none b = b
or_else (some a) b = some a

-- The bytes of a node's edge; none is a slice out of range.
unfoldable pub edge : Index → Node → Option Bytes
edge idx node =
    if leb (node.edge_offset + node.edge_len) (length idx.arena)
    then some (take node.edge_len (drop node.edge_offset idx.arena))
    else none

-- The child with the byte, of `count` nodes from `j` on.
unfoldable pub search_child : List Node → ℕ → ℕ → ℕ → Option ℕ
search_child nodes byte zero j = none
search_child nodes byte (suc count) j = elim (nth j nodes) [
  | none ↦ none
  | some child ↦ elim (child.first_byte == byte) [
    | true ↦ some j
    | false ↦ search_child nodes byte count (suc j)
  ]
]

-- To a node with as many bytes of the query, to no node, or out of range.
pub data Descent : Type 0 where
  to : ℕ → ℕ → Descent
  dead_end : Descent
  fault : Descent

unfoldable pub follow : Index → Bytes → ℕ → Descent
follow idx rest index = elim (nth index idx.nodes) [
  | none ↦ fault
  | some next ↦ elim (edge idx next) [
    | none ↦ fault
    | some bytes ↦ if starts_with rest bytes then to index (length bytes) else dead_end
  ]
]

unfoldable pub descend : Index → Node → ℕ → Bytes → Descent
descend idx node byte rest =
    if leb (node.first_child + node.child_count) (length idx.nodes)
    then elim (search_child idx.nodes byte node.child_count node.first_child) [
      | none ↦ dead_end
      | some index ↦ follow idx rest index
    ]
    else fault

-- One round of `Index::lookup`; `next` is the rounds after it.
unfoldable pub lookup_round :
    Index → (ℕ → ℕ → Bytes → Option Match → Walk) → Node → ℕ → Bytes → Option Match → Walk
lookup_round idx next node position rest blocked = elim (found node.sources position allow_suffix) [
  | some allow ↦ finished (some allow)
  | none ↦ elim rest [
    | [] ↦ elim (found node.sources position allow_exact) [
      | some allow ↦ finished (some allow)
      | none ↦ finished (
          or_else blocked (
            or_else (found node.sources position block_suffix)
              (found node.sources position block_exact)))
    ]
    | byte ∷ bytes ↦
        let blocked' = or_else blocked (found node.sources position block_suffix) in
        elim (descend idx node byte (byte ∷ bytes)) [
          | fault ↦ panicked
          | dead_end ↦ finished blocked'
          | to child n ↦ next child (position + n) (drop n (byte ∷ bytes)) blocked'
        ]
  ]
]

unfoldable pub lookup_loop : Index → ℕ → ℕ → ℕ → Bytes → Option Match → Walk
lookup_loop idx zero index position rest blocked = spent
lookup_loop idx (suc fuel) index position rest blocked = elim (nth index idx.nodes) [
  | none ↦ panicked
  | some node ↦ lookup_round idx (lookup_loop idx fuel) node position rest blocked
]

-- `Index::lookup`, for the key of a query.
unfoldable pub lookup : Index → Bytes → Walk
lookup idx key = lookup_loop idx (suc (length key)) 0 0 key none

abbrev bit : Bool → ℕ
bit b = if b then 1 else 0

-- The first of two numbers decides, or else what follows.
unfoldable pub before : ℕ → ℕ → Bool → Bool
before a b tie = if ltb a b then true else if ltb b a then false else tie

abbrev pub is_block_suffix : Group → Bool
is_block_suffix block_suffix = true
is_block_suffix _ = false

-- Whether a match's rank is below another's: a local slot, an exact rule, a longer key, a lower
-- slot.
unfoldable pub ranks_below : ℕ → Match → Match → Bool
ranks_below local_slots a b =
    before (bit (leb local_slots a.source_slot)) (bit (leb local_slots b.source_slot)) (
      before (bit (is_block_suffix a.group)) (bit (is_block_suffix b.group))
        (before b.matched_key_len a.matched_key_len (before a.source_slot b.source_slot false)))

-- The closure `consider` of `block_match`.
unfoldable pub consider : ℕ → Option Match → Option Match → Option Match
consider local_slots best none = best
consider local_slots none (some m) = some m
consider local_slots (some b) (some m) = if ranks_below local_slots m b then some m else some b

-- One round of `Index::block_match`.
unfoldable pub block_round :
    Index → ℕ → (ℕ → ℕ → Bytes → Option Match → Walk) → Node → ℕ → Bytes → Option Match → Walk
block_round idx local_slots next node position rest best =
    elim (found node.sources position allow_suffix) [
      | some allow ↦ finished none
      | none ↦
          let best' = consider local_slots best (found node.sources position block_suffix) in
          elim rest [
            | [] ↦ elim (found node.sources position allow_exact) [
              | some allow ↦ finished none
              | none ↦
                  finished (consider local_slots best' (found node.sources position block_exact))
            ]
            | byte ∷ bytes ↦ elim (descend idx node byte (byte ∷ bytes)) [
              | fault ↦ panicked
              | dead_end ↦ finished best'
              | to child n ↦ next child (position + n) (drop n (byte ∷ bytes)) best'
            ]
          ]
    ]

unfoldable pub block_loop : Index → ℕ → ℕ → ℕ → ℕ → Bytes → Option Match → Walk
block_loop idx local_slots zero index position rest best = spent
block_loop idx local_slots (suc fuel) index position rest best = elim (nth index idx.nodes) [
  | none ↦ panicked
  | some node ↦
      block_round idx local_slots (block_loop idx local_slots fuel) node position rest best
]

-- `Index::block_match`, for the key of a query.
unfoldable pub block_match : Index → Bytes → ℕ → Walk
block_match idx key local_slots = block_loop idx local_slots (suc (length key)) 0 0 key none
