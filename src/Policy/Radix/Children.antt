-- ===== src/Policy/Radix/Children.antt =====
-- policy/radix.rs: what the search over the children of a node finds of the keys below them.
use pari_ns.Prelude.{
  ℕ, zero, suc, ◌+◌, ◌≤◌, ◌<◌, ◌≡◌, refl, ◌∙◌, false, ◌&&◌, Option, none, some, [], ◌∷◌, ◌++◌,
  length, arith, ◌==◌, subst, inl, inr, Bool-cases, ==_iff, if◌then◌else◌,
}
use pari_ns.Prelude.Bytes.{drop, nth, starts_with, same_bytes}
use pari_ns.Policy.Key.{Bytes}
use pari_ns.Policy.Radix.{Node, Index, edge, search_child}
use pari_ns.Policy.Radix.Stored.{Sources, Table, under, below, children, find, IsRising}

find_nil : (k : Bytes) → find k [] ≡ none
unfolding find
find_nil k = refl

find-append :
    (k : Bytes) (t u : Table)
    → find k (t ++ u)
      ≡ elim (find k t) as (λ x. Option Sources) [ some s ↦ some s | none ↦ find k u ]
unfolding find
find-append k [] u = refl
find-append k ((k', s) ∷ t) u = ground (arith, find-append k t u)

same-append :
    (k bytes k' : Bytes)
    → same_bytes k (bytes ++ k') ≡ (starts_with k bytes && same_bytes (drop (length bytes) k) k')
unfolding same_bytes starts_with drop
same-append k [] k' = refl
same-append [] (b ∷ bytes) k' = refl
same-append (x ∷ k) (b ∷ bytes) k' = ground (arith, same-append k bytes k')

-- A key below an edge is the edge and a key of what is below.
pub find-under :
    (k bytes : Bytes) (t : Table)
    → find k (under bytes t)
      ≡ (if starts_with k bytes then find (drop (length bytes) k) t else none)
unfolding find under
find-under k bytes [] = ground arith
find-under k bytes ((k', s) ∷ t) = ground (arith, same-append k bytes k', find-under k bytes t)

below_lem :
    (idx : Index) (j : ℕ) (t : Table) {child : Node} {bytes : Bytes}
    → nth j idx.nodes ≡ some child
    → edge idx child ≡ some bytes
    → below idx j t ≡ under bytes t
unfolding below
below_lem idx j t at is_edge = ground arith

-- A key that begins with another byte is not below the child.
find-under_other :
    (byte b : ℕ) (k bytes : Bytes) (t : Table)
    → (byte == b) ≡ false
    → find (byte ∷ k) (under (b ∷ bytes) t) ≡ none
unfolding starts_with
find-under_other byte b k bytes t ne = find-under (byte ∷ k) (b ∷ bytes) t ∙ ground arith

-- No child has a key that begins with a byte below their first ones.
find-children_below :
    (idx : Index) (t : ℕ → Table) (count j low byte : ℕ) (k : Bytes)
    → IsRising idx low count j
    → byte < low
    → find (byte ∷ k) (children idx t count j) ≡ none
unfolding children
find-children_below idx t zero j low byte k h lt = find_nil (byte ∷ k)
find-children_below idx t (suc count) j low byte k (child, bytes, at, is_edge, above, rest) lt =
    rw
      (
        below_lem idx j (t j) at is_edge,
        find-append,
        find-under_other byte child.first_byte k bytes (t j) (ground arith),
      )
      (find-children_below idx t count (suc j) (suc child.first_byte) byte k rest (omega arith))

-- The keys below the first child, where it is the one with the byte.
find-children_first :
    (idx : Index) (t : ℕ → Table) (count j byte : ℕ) (k bytes : Bytes) {child : Node}
    → nth j idx.nodes ≡ some child
    → edge idx child ≡ some (byte ∷ bytes)
    → IsRising idx (suc byte) count (suc j)
    → find (byte ∷ k) (children idx t (suc count) j) ≡ find (byte ∷ k) (under (byte ∷ bytes) (t j))
unfolding children
find-children_first idx t count j byte k bytes at is_edge rest =
    rw (below_lem idx j (t j) at is_edge, find-append)
      (ground (arith, find-children_below idx t count (suc j) (suc byte) byte k rest (omega arith)))

-- The keys below the other children, where it is not.
find-children_next :
    (idx : Index) (t : ℕ → Table) (count j byte b : ℕ) (k bytes : Bytes) {child : Node}
    → nth j idx.nodes ≡ some child
    → edge idx child ≡ some (b ∷ bytes)
    → (byte == b) ≡ false
    → find (byte ∷ k) (children idx t (suc count) j)
      ≡ find (byte ∷ k) (children idx t count (suc j))
unfolding children
find-children_next idx t count j byte b k bytes at is_edge ne =
    rw (below_lem idx j (t j) at is_edge, find-append, find-under_other byte b k bytes (t j) ne)
      refl

-- The child that the search finds has all keys that begin with the byte.
pub record Finds (idx : Index) (t : ℕ → Table) (count j byte c : ℕ) : Type 0 where
  pub child : Node
  pub bytes : Bytes
  pub at : nth c idx.nodes ≡ some child
  pub is_edge : edge idx child ≡ some (byte ∷ bytes)
  pub from : j ≤ c
  pub below_end : c < j + count
  pub keys :
      (k : Bytes)
      → find (byte ∷ k) (children idx t count j) ≡ find (byte ∷ k) (under (byte ∷ bytes) (t c))

pub search_child-Finds :
    (idx : Index) (t : ℕ → Table) (count j low byte c : ℕ)
    → IsRising idx low count j
    → search_child idx.nodes byte count j ≡ some c
    → Finds idx t count j byte c
unfolding search_child
search_child-Finds idx t zero j low byte c h e = cc
search_child-Finds idx t (suc count) j low byte c (child, bytes, at, is_edge, above, rest) e =
    elim (Bool-cases (child.first_byte == byte)) [
      | inl here ↦
          let same : child.first_byte ≡ byte = (==_iff _ _).0 here in
          let first : c ≡ j = ground arith in
          let here_edge = subst (λ b. edge idx child ≡ some (b ∷ bytes)) same is_edge in
          let here_rest = subst (λ b. IsRising idx (suc b) count (suc j)) same rest in
          record {
            child = child;
            bytes = bytes;
            at = cc;
            is_edge = here_edge;
            from = omega arith;
            below_end = omega arith;
            keys = λ k.
                rw first (find-children_first idx t count j byte k bytes at here_edge here_rest);
          }
      | inr other ↦
          let f =
            search_child-Finds idx t count (suc j) (suc child.first_byte) byte c rest
              (ground arith) in
          record {
            child = f.child;
            bytes = f.bytes;
            at = f.at;
            is_edge = f.is_edge;
            from = omega (arith, f.from);
            below_end = omega (arith, f.below_end);
            keys = λ k.
                find-children_next idx t count j byte child.first_byte k bytes at is_edge
                  (ground arith)
                ∙ f.keys k;
          }
    ]

pub search_child-none :
    (idx : Index) (t : ℕ → Table) (count j low byte : ℕ) (k : Bytes)
    → IsRising idx low count j
    → search_child idx.nodes byte count j ≡ none
    → find (byte ∷ k) (children idx t count j) ≡ none
unfolding search_child children
search_child-none idx t zero j low byte k h e = find_nil (byte ∷ k)
search_child-none idx t (suc count) j low byte k (child, bytes, at, is_edge, above, rest) e =
    find-children_next idx t count j byte child.first_byte k bytes at is_edge (ground arith)
    ∙ search_child-none idx t count (suc j) (suc child.first_byte) byte k rest (ground arith)
