-- ===== src/Cache/Lru.antt =====
-- What cache.rs relies on of `lru::LruCache` without a bound, keyed by entry ids: `iter` visits the
-- entries from the most to the least recently used, and every operation is given by what it does
-- to that sequence.
use pari_ns.Prelude.{
  ℕ, ◌≤◌, ◌≡◌, Option, none, some, List, [], ◌∷◌, ◌++◌, length, count, ℕ_discrete,
}
use pari_ns.Prelude.Assoc.{keys, lookup, remove}

module _ {V : Type 0} where
  unfoldable pub last : List (ℕ × V) → Option (ℕ × V)
  last [] = none
  last (x ∷ []) = some x
  last (x ∷ y ∷ ys) = last (y ∷ ys)

pub record LruCache (V : Type 0) : Type 1 where
  pub Table : Type 0
  pub unbounded : Table
  pub iter : Table → List (ℕ × V)
  pub len : Table → ℕ
  pub peek : ℕ → Table → Option V
  -- `get`: the entry becomes the most recently used.
  pub promote : ℕ → Table → Table
  pub pop : ℕ → Table → Table
  pub put : ℕ → V → Table → Table
  pub demote : ℕ → Table → Table
  pub peek_lru : Table → Option (ℕ × V)
  pub unbounded_iter : iter unbounded ≡ []
  pub single : (t : Table) (id : ℕ) → count ℕ_discrete id (keys (iter t)) ≤ 1
  pub len_iter : (t : Table) → len t ≡ length (iter t)
  pub peek_iter : (id : ℕ) (t : Table) → peek id t ≡ lookup ℕ_discrete id (iter t)
  pub peek_lru_iter : (t : Table) → peek_lru t ≡ last (iter t)
  pub iter_pop : (id : ℕ) (t : Table) → iter (pop id t) ≡ remove ℕ_discrete id (iter t)
  pub iter_put :
      (id : ℕ) (v : V) (t : Table) → iter (put id v t) ≡ (id, v) ∷ remove ℕ_discrete id (iter t)
  pub iter_promote :
      (id : ℕ) (v : V) (t : Table)
      → peek id t ≡ some v
      → iter (promote id t) ≡ (id, v) ∷ remove ℕ_discrete id (iter t)
  pub iter_demote :
      (id : ℕ) (v : V) (t : Table)
      → peek id t ≡ some v
      → iter (demote id t) ≡ remove ℕ_discrete id (iter t) ++ (id, v) ∷ []
