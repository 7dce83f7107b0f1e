-- ===== src/Policy/Radix/Descends.antt =====
-- policy/radix.rs: where a step of a walk goes, and the keys that it leaves.
use pari_ns.Prelude.{
  ℕ, zero, suc, ◌+◌, ◌≤◌, ◌<◌, ◌≡◌, refl, sym, ◌∙◌, ap, true, none, some, [], ◌∷◌, ◌++◌, length,
  arith, inl, inr, Bool-cases, Option-cases, if◌then◌else◌,
}
use pari_ns.Prelude.Bytes.{drop, nth, starts_with, same_bytes}
use pari_ns.Policy.Key.{Bytes}
use pari_ns.Policy.Radix.{Node, Index, edge, search_child, descend, follow, to, dead_end}
use pari_ns.Policy.Radix.Stored.{children, keys_at, find, IsIndex}
use pari_ns.Policy.Radix.Children.{Finds, search_child-Finds, search_child-none, find-under}
use pari_ns.Policy.Radix.Path.{path, path-none, path-skip}

-- The stops after a node: none, or those from the node that the step goes to.
pub data Goes (idx : Index) (fuel i : ℕ) (node : Node) (p byte : ℕ) (rest : Bytes) : Type 0 where
  ends :
      descend idx node byte (byte ∷ rest) ≡ dead_end
      → path (λ k. find (byte ∷ k) (keys_at idx (suc fuel) i)) (p + 1) rest ≡ []
      → Goes idx fuel i node p byte rest
  goes_on :
      (c n : ℕ) (child : Node)
      → descend idx node byte (byte ∷ rest) ≡ to c n
      → nth c idx.nodes ≡ some child
      → i < c
      → length (drop n (byte ∷ rest)) ≤ length rest
      → path (λ k. find (byte ∷ k) (keys_at idx (suc fuel) i)) (p + 1) rest
        ≡ path (λ k. find k (keys_at idx fuel c)) (p + n) (drop n (byte ∷ rest))
      → Goes idx fuel i node p byte rest

-- Bytes that begin with others are those and what is left.
starts_with-split : (r e : Bytes) → starts_with r e ≡ true → e ++ drop (length e) r ≡ r
unfolding starts_with drop
starts_with-split r [] h = refl
starts_with-split [] (b ∷ e) h = cc
starts_with-split (x ∷ r) (b ∷ e) h = ground (arith, starts_with-split r e)

starts_with-append_self : (e k : Bytes) → starts_with (e ++ k) e ≡ true
unfolding starts_with
starts_with-append_self [] k = refl
starts_with-append_self (b ∷ e) k = ground (arith, starts_with-append_self e k)

drop-append : (e k : Bytes) → drop (length e) (e ++ k) ≡ k
unfolding drop
drop-append [] k = refl
drop-append (b ∷ e) k = drop-append e k

starts_with_trans :
    (r k e : Bytes) → starts_with r k ≡ true → starts_with k e ≡ true → starts_with r e ≡ true
unfolding starts_with
starts_with_trans r k [] g h = refl
starts_with_trans r [] (b ∷ e) g h = cc
starts_with_trans [] (y ∷ k) (b ∷ e) g h = cc
starts_with_trans (x ∷ r) (y ∷ k) (b ∷ e) g h = ground (arith, starts_with_trans r k e)

length-drop-le : (n : ℕ) (r : Bytes) → length (drop n r) ≤ length r
unfolding drop
length-drop-le zero r = omega arith
length-drop-le (suc n) [] = omega arith
length-drop-le (suc n) (x ∷ r) = omega (arith, length-drop-le n r)

keys_at-cons :
    (idx : Index) (fuel i byte : ℕ) (k : Bytes) {node : Node}
    → nth i idx.nodes ≡ some node
    → find (byte ∷ k) (keys_at idx (suc fuel) i)
      ≡ find (byte ∷ k) (children idx (keys_at idx fuel) node.child_count node.first_child)
unfolding keys_at find same_bytes
keys_at-cons idx fuel i byte k at = rw (at, find) refl

module _ (idx : Index) (v : IsIndex idx) (fuel i : ℕ) (node : Node)
    (at : nth i idx.nodes ≡ some node) (p byte : ℕ) (rest : Bytes) where
  descend-none :
      search_child idx.nodes byte node.child_count node.first_child ≡ none
      → descend idx node byte (byte ∷ rest) ≡ dead_end
  unfolding descend
  descend-none e = rw e (ground (arith, v.in_range i node at))

  follow_lem :
      (c : ℕ) {child : Node} (bytes : Bytes)
      → nth c idx.nodes ≡ some child
      → edge idx child ≡ some (byte ∷ bytes)
      → follow idx (byte ∷ rest) c
        ≡ (if starts_with rest bytes then to c (suc (length bytes)) else dead_end)
  unfolding follow starts_with
  follow_lem c bytes here is_edge = rw (here, follow) (rw (is_edge, follow) (ground arith))

  module _ (c : ℕ)
      (searched : search_child idx.nodes byte node.child_count node.first_child ≡ some c)
      (f : Finds idx (keys_at idx fuel) node.child_count node.first_child byte c) where
    descend_found :
        descend idx node byte (byte ∷ rest)
        ≡ (if starts_with rest f.bytes then to c (suc (length f.bytes)) else dead_end)
    unfolding descend
    descend_found =
        rw searched (ground (arith, v.in_range i node at, follow_lem c f.bytes f.at f.is_edge))

    keys_found :
        (k : Bytes)
        → find (byte ∷ k) (keys_at idx (suc fuel) i) ≡ (
            if starts_with k f.bytes
            then find (drop (length f.bytes) k) (keys_at idx fuel c)
            else none)
    unfolding starts_with drop
    keys_found k =
        keys_at-cons idx fuel i byte k at
        ∙ f.keys k
        ∙ find-under (byte ∷ k) (byte ∷ f.bytes) (keys_at idx fuel c)
        ∙ ground arith

    found-Goes : Goes idx fuel i node p byte rest
    unfolding drop
    found-Goes = elim (Bool-cases (starts_with rest f.bytes)) [
      | inr no_edge ↦ ends (ground (arith, descend_found)) (
          path-none _ (p + 1) rest
            (λ k e. ground (arith, keys_found k, starts_with_trans rest k f.bytes e)))
      | inl has_edge ↦
          let left = drop (length f.bytes) rest in
          let skipped =
            path-skip f.bytes (λ k. find (byte ∷ k) (keys_at idx (suc fuel) i))
              (λ k. find k (keys_at idx fuel c)) (p + 1) left
              (λ k. ground (
                arith,
                keys_found (f.bytes ++ k),
                starts_with-append_self f.bytes k,
                ap (λ r. find r (keys_at idx fuel c)) (drop-append f.bytes k),
              ))
              (λ k e. ground (arith, keys_found k)) in
          let e : p + 1 + length f.bytes ≡ p + suc (length f.bytes) = omega arith in
          goes_on c (suc (length f.bytes)) f.child (ground (arith, descend_found)) f.at
            (omega (arith, f.from, v.in_range i node at)) (length-drop-le (length f.bytes) rest)
            (ap (path _ (p + 1)) (sym (starts_with-split rest f.bytes has_edge))
              ∙ skipped
              ∙ ap (λ (n : ℕ). path (λ k. find k (keys_at idx fuel c)) n left) e)
    ]

  pub descend-Goes : Goes idx fuel i node p byte rest
  descend-Goes =
      elim (Option-cases (search_child idx.nodes byte node.child_count node.first_child)) [
        | inl no_child ↦ ends (descend-none no_child) (
            path-none _ (p + 1) rest (λ k e.
              keys_at-cons idx fuel i byte k at
              ∙ search_child-none idx _ node.child_count node.first_child 0 byte k
                  (v.rising i node at) no_child))
        | inr (c, e) ↦ found-Goes c e (
            search_child-Finds idx _ node.child_count node.first_child 0 byte c (v.rising i node at)
              e)
      ]
