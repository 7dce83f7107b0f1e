-- ===== src/Prelude/Sweep.antt =====
-- A map whose keys stand once each in a queue that is swept from the front, as both admission
-- tables of the program keep it.
use pari_ns.Prelude.Lists.{choose, count, count-append}
use pari_ns.Prelude.Assoc.{
  keys, lookup, insert, remove, count-insert_absent, keys-insert_present, count-remove,
  count-eq_zero,
}
use Prim.Native.Nat.{◌+◌, ◌≤◌}
use mathlib.Core.Path.{◌≡◌, refl}
use mathlib.Core.List.{List, [], ◌∷◌, ◌++◌}
use mathlib.Core.Option.{Option, none, some}
use native.Mathlib.Omega.{arith}

module _ {ℓ} {K : Type ℓ} (dec : Discrete K) where
  count-rotate : (j k : K) (rest : List K) → count dec j (rest ++ k ∷ []) ≡ count dec j (k ∷ rest)
  unfolding count
  count-rotate j k rest = omega (arith, count-append dec j rest (k ∷ []))

module _ {ℓ} {K V : Type ℓ} (dec : Discrete K) where
  pub record IsSwept (m : List (K × V)) (sweep : List K) : Type ℓ where
    pub swept : (k : K) → count dec k sweep ≡ count dec k (keys m)
    pub single : (k : K) → count dec k (keys m) ≤ 1

  pub nil-IsSwept : IsSwept [] []
  nil-IsSwept = record { swept = λ k. refl; single = λ k. unfold count in (omega arith) }

  -- The front of the queue has an entry.
  pub front_present :
      (m : List (K × V)) (k : K) (rest : List K)
      → IsSwept m (k ∷ rest)
      → (v : V) × (lookup dec k m ≡ some v)
  unfolding count
  front_present m k rest t = go (lookup dec k m) refl
    where
      go : (o : Option V) → lookup dec k m ≡ o → (v : V) × (o ≡ some v)
      go none e = absurd (ground (arith, t.swept k, count-eq_zero dec k m e))
      go (some v) e = (v, refl)

  -- A present key takes a new value, and the front goes to the back.
  pub rotate-IsSwept :
      (m : List (K × V)) (k : K) (v v' : V) (rest : List K)
      → lookup dec k m ≡ some v
      → IsSwept m (k ∷ rest)
      → IsSwept (insert dec k v' m) (rest ++ k ∷ [])
  rotate-IsSwept m k v v' rest h t = record {
    swept = λ j. rw (keys-insert_present dec k v' m v h, count-rotate dec j k rest) (t.swept j);
    single = λ j. rw (keys-insert_present dec k v' m v h) (t.single j);
  }

  -- A present key takes a new value, with the queue as it is.
  pub update-IsSwept :
      (m : List (K × V)) (k : K) (v v' : V) (sweep : List K)
      → lookup dec k m ≡ some v
      → IsSwept m sweep
      → IsSwept (insert dec k v' m) sweep
  update-IsSwept m k v v' sweep h t = record {
    swept = λ j. rw (keys-insert_present dec k v' m v h) (t.swept j);
    single = λ j. rw (keys-insert_present dec k v' m v h) (t.single j);
  }

  count-insert-le :
      (m : List (K × V)) (j k : K) (v : V)
      → lookup dec k m ≡ none
      → count dec j (keys m) ≤ 1
      → count dec j (keys (insert dec k v m)) ≤ 1
  count-insert-le m j k v h b = elim (dec k j) [
    | yes e ↦
        rw (← e)
          (rw (count-insert_absent dec k k v m h, count-eq_zero dec k m h) (at_most (dec k k)))
    | no n ↦ ground (arith, count-insert_absent dec k j v m h)
  ]
    where
      at_most : (d : Dec (k ≡ k)) → choose d 1 0 + 0 ≤ 1
      at_most (yes p) = omega arith
      at_most (no p) = omega arith

  -- A new key goes to the back of the queue.
  pub add-IsSwept :
      (m : List (K × V)) (k : K) (v : V) (sweep : List K)
      → lookup dec k m ≡ none
      → IsSwept m sweep
      → IsSwept (insert dec k v m) (sweep ++ k ∷ [])
  unfolding count
  add-IsSwept m k v sweep h t = record {
    swept = λ j.
        omega
          (arith, t.swept j, count-append dec j sweep (k ∷ []), count-insert_absent dec k j v m h);
    single = λ j. count-insert-le m j k v h (t.single j);
  }

  -- The front leaves the queue and the map.
  pub drop-IsSwept :
      (m : List (K × V)) (k : K) (rest : List K)
      → IsSwept m (k ∷ rest)
      → IsSwept (remove dec k m) rest
  unfolding count
  drop-IsSwept m k rest t = record {
    swept = λ j. ground (arith, t.swept j, t.single j, count-remove dec k j m);
    single = λ j. ground (arith, t.single j, count-remove dec k j m);
  }
