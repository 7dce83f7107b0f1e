-- ===== src/Policy/Radix/Walks.antt =====
-- policy/radix.rs: a walk through the index meets the stored keys that cover the name.
use pari_ns.Prelude.{
  ℕ, zero, suc, ◌+◌, ◌≤◌, ◌<◌, ◌≡◌, refl, Bool, true, false, Option, some, List, [], ◌∷◌, arith,
  length,
}
use pari_ns.Prelude.Bytes.{nth, drop, same_bytes}
use pari_ns.Policy.Key.{Bytes}
use pari_ns.Policy.Radix.{Node, Index, Match, Walk, descend, to, dead_end}
use pari_ns.Policy.Radix.Stored.{stored, find, keys_at, IsIndex}
use pari_ns.Policy.Radix.Path.{Stop, path}
use pari_ns.Policy.Radix.Descends.{ends, goes_on, descend-Goes}
use pari_ns.Policy.Radix.Verdict.{covering}

pub nth-lt {ℓ} : {A : Type ℓ} (n : ℕ) (xs : List A) {x : A} → nth n xs ≡ some x → n < length xs
unfolding nth
nth-lt n [] h = cc
nth-lt zero (x ∷ xs) h = omega arith
nth-lt (suc n) (x ∷ xs) h = ground (arith, nth-lt n xs h)

pub nth-some {ℓ} :
    {A : Type ℓ} (n : ℕ) (xs : List A) → n < length xs → (x : A) × (nth n xs ≡ some x)
unfolding nth
nth-some n [] h = absurd (omega arith)
nth-some zero (x ∷ xs) h = (x, refl)
nth-some (suc n) (x ∷ xs) h = nth-some n xs (omega arith)

-- The first key that a walk meets at a node.
find-keys_at :
    (idx : Index) (fuel i : ℕ) {node : Node}
    → nth i idx.nodes ≡ some node
    → find [] (keys_at idx (suc fuel) i) ≡ some node.sources
unfolding keys_at find same_bytes
find-keys_at idx fuel i at = rw (at, find) refl

abbrev pub stop_of : Node → ℕ → Bool → Stop
stop_of node p w = record { position = p; sources = node.sources; whole = w }

-- A loop that goes down the index, and what it makes of the stops that it meets.
pub record Follows (idx : Index) (loop : ℕ → ℕ → ℕ → Bytes → Option Match → Walk)
    (result : Option Match → List Stop → Walk) : Type 0 where
  pub at_end :
      (f i p : ℕ) (acc : Option Match) (node : Node)
      → nth i idx.nodes ≡ some node
      → loop (suc f) i p [] acc ≡ result acc (stop_of node p true ∷ [])
  pub at_dead_end :
      (f i p byte : ℕ) (rest : Bytes) (acc : Option Match) (node : Node)
      → nth i idx.nodes ≡ some node
      → descend idx node byte (byte ∷ rest) ≡ dead_end
      → loop (suc f) i p (byte ∷ rest) acc ≡ result acc (stop_of node p false ∷ [])
  pub going_on :
      (f i p byte : ℕ) (rest : Bytes) (acc : Option Match) (node : Node)
      → nth i idx.nodes ≡ some node
      → (c n : ℕ) (stops : List Stop) → descend idx node byte (byte ∷ rest) ≡ to c n
      → ((acc' : Option Match) → loop f c (p + n) (drop n (byte ∷ rest)) acc' ≡ result acc' stops)
      → loop (suc f) i p (byte ∷ rest) acc ≡ result acc (stop_of node p false ∷ stops)

module _ (idx : Index) (v : IsIndex idx) (loop : ℕ → ℕ → ℕ → Bytes → Option Match → Walk)
    (result : Option Match → List Stop → Walk) (w : Follows idx loop result) where
  loop-path :
      (f fuel i p : ℕ) (rest : Bytes) (acc : Option Match) (node : Node)
      → length rest < f
      → length idx.nodes ≤ i + fuel
      → nth i idx.nodes ≡ some node
      → loop f i p rest acc ≡ result acc (path (λ k. find k (keys_at idx fuel i)) p rest)
  unfolding path
  loop-path zero fuel i p rest acc node h room at = absurd (omega arith)
  loop-path (suc f) zero i p rest acc node h room at = absurd (omega (arith, nth-lt i idx.nodes at))
  loop-path (suc f) (suc fuel) i p [] acc node h room at =
      rw (find-keys_at idx fuel i at) (w.at_end f i p acc node at)
  loop-path (suc f) (suc fuel) i p (byte ∷ rest) acc node h room at =
      rw (find-keys_at idx fuel i at) (elim (descend-Goes idx v fuel i node at p byte rest) [
        | ends e empty ↦ rw empty (w.at_dead_end f i p byte rest acc node at e)
        | goes_on c n child e child_at later shorter stops ↦ rw stops (
            w.going_on f i p byte rest acc node at c n _ e (λ acc'.
              loop-path f fuel c (p + n) (drop n (byte ∷ rest)) acc' child (omega arith)
                (omega arith) child_at))
      ])

  pub loop-stored :
      (key : Bytes) (acc : Option Match)
      → loop (suc (length key)) 0 0 key acc ≡ result acc (covering idx key)
  unfolding covering stored
  loop-stored key acc =
      let (root, at) = nth-some 0 idx.nodes v.rooted in
      loop-path (suc (length key)) (length idx.nodes) 0 0 key acc root (omega arith) (omega arith)
        at
