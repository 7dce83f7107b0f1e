-- ===== src/Prelude/Assoc.antt =====
-- A hash map as an association list over keys with decidable equality. The order of the list
-- stands for the iteration order that the program never relies on.
use Prim.Native.Nat.{◌+◌, ◌≤◌, ◌<◌}
use mathlib.Core.Path.{◌≡◌, refl, subst}
use mathlib.Core.Logic.{ite}
use mathlib.Core.List.{List, [], ◌∷◌, map}
use mathlib.Core.Option.{Option, none, some}
use native.Mathlib.Omega.{arith}
use pari_ns.Prelude.Lists.{length, choose, count}

module _ {ℓ} {K V : Type ℓ} where
  abbrev pub keys : List (K × V) → List K
  keys = map (λ e. e.0)

module _ {ℓ} {K V : Type ℓ} (dec : Discrete K) where
  unfoldable pub lookup : K → List (K × V) → Option V
  lookup k [] = none
  lookup k ((j, v) ∷ m) = ite (dec j k) (some v) (lookup k m)

  -- Replaces the value of a present key, and adds an absent one.
  unfoldable pub insert : K → V → List (K × V) → List (K × V)
  insert k v [] = (k, v) ∷ []
  insert k v ((j, w) ∷ m) = ite (dec j k) ((j, v) ∷ m) ((j, w) ∷ insert k v m)

  unfoldable pub remove : K → List (K × V) → List (K × V)
  remove k [] = []
  remove k ((j, w) ∷ m) = ite (dec j k) (remove k m) ((j, w) ∷ remove k m)

  pub lookup-insert :
      (k j : K) (v : V) (m : List (K × V))
      → lookup j (insert k v m) ≡ ite (dec k j) (some v) (lookup j m)
  unfolding lookup insert
  lookup-insert k j v [] = refl
  lookup-insert k j v ((i, w) ∷ m) = ground (arith, lookup-insert k j v m)

  pub lookup-insert_self : (k : K) (v : V) (m : List (K × V)) → lookup k (insert k v m) ≡ some v
  lookup-insert_self k v m = ground (arith, lookup-insert k k v m)

  -- What holds of the new value, and of the entries of the other keys, holds of every lookup.
  pub lookup-insert_rule {ν} :
      (P : Option V → Type ν) (k j : K) (v : V) (m : List (K × V))
      → (k ≡ j → P (some v))
      → (¬ (k ≡ j) → P (lookup j m))
      → P (lookup j (insert k v m))
  lookup-insert_rule P k j v m here there = rw (lookup-insert k j v m) (split (dec k j))
    where
      split : (d : Dec (k ≡ j)) → P (ite d (some v) (lookup j m))
      split (yes p) = here p
      split (no n) = there n

  pub lookup-remove :
      (k j : K) (m : List (K × V)) → lookup j (remove k m) ≡ ite (dec k j) none (lookup j m)
  unfolding lookup remove
  lookup-remove k j [] = ground arith
  lookup-remove k j ((i, w) ∷ m) = ground (arith, lookup-remove k j m)

  pub count-insert_absent :
      (k j : K) (v : V) (m : List (K × V))
      → lookup k m ≡ none
      → count dec j (keys (insert k v m)) ≡ choose (dec k j) 1 0 + count dec j (keys m)
  unfolding lookup insert count
  count-insert_absent k j v [] h = omega arith
  count-insert_absent k j v ((i, w) ∷ m) h = ground (arith, count-insert_absent k j v m)

  pub keys-insert_present :
      (k : K) (v : V) (m : List (K × V)) (u : V)
      → lookup k m ≡ some u
      → keys (insert k v m) ≡ keys m
  unfolding lookup insert
  keys-insert_present k v [] u h = cc
  keys-insert_present k v ((i, w) ∷ m) u h = ground (arith, keys-insert_present k v m u)

  pub count-remove :
      (k j : K) (m : List (K × V))
      → count dec j (keys (remove k m)) ≡ choose (dec k j) 0 (count dec j (keys m))
  unfolding remove count
  count-remove k j [] = ground arith
  count-remove k j ((i, w) ∷ m) = ground (arith, count-remove k j m)

  pub count-eq_zero : (k : K) (m : List (K × V)) → lookup k m ≡ none → count dec k (keys m) ≡ 0
  unfolding lookup count
  count-eq_zero k [] h = refl
  count-eq_zero k ((i, w) ∷ m) h = ground (arith, count-eq_zero k m)

  pub count-pos :
      (k : K) (m : List (K × V)) (v : V) → lookup k m ≡ some v → 0 < count dec k (keys m)
  unfolding lookup count
  count-pos k [] v h = cc
  count-pos k ((i, w) ∷ m) v h = ground (arith, count-pos k m v)

  pub length-insert_absent :
      (k : K) (v : V) (m : List (K × V)) → lookup k m ≡ none → length (insert k v m) ≡ length m + 1
  unfolding lookup insert
  length-insert_absent k v [] h = omega arith
  length-insert_absent k v ((i, w) ∷ m) h = ground (arith, length-insert_absent k v m)

  pub length-insert_present :
      (k : K) (v : V) (m : List (K × V)) (u : V)
      → lookup k m ≡ some u
      → length (insert k v m) ≡ length m
  unfolding lookup insert
  length-insert_present k v [] u h = cc
  length-insert_present k v ((i, w) ∷ m) u h = ground (arith, length-insert_present k v m u)

  pub length-remove-le : (k : K) (m : List (K × V)) → length (remove k m) ≤ length m
  unfolding remove
  length-remove-le k [] = omega arith
  length-remove-le k ((i, w) ∷ m) = ground (arith, length-remove-le k m)

  pub length-remove_present :
      (k : K) (m : List (K × V)) (v : V) → lookup k m ≡ some v → length (remove k m) < length m
  unfolding lookup remove
  length-remove_present k [] v h = cc
  length-remove_present k ((i, w) ∷ m) v h =
      ground (arith, length-remove_present k m v, length-remove-le k m)

  -- A predicate of every value that a lookup finds.
  abbrev pub Each {ν} : (V → Type ν) → List (K × V) → Type (ℓ ⊔ ν)
  Each P m = (k : K) (v : V) → lookup k m ≡ some v → P v

  pub Each-insert {ν} :
      (P : V → Type ν) (k : K) (v : V) (m : List (K × V)) → P v → Each P m → Each P (insert k v m)
  Each-insert P k v m p each j w h = elim (dec k j) [
    | yes e ↦ subst P (found e) p
    | no n ↦ each j w (ground (arith, lookup-insert k j v m))
  ]
    where
      found : k ≡ j → v ≡ w
      found e = ground (arith, lookup-insert k j v m)

  pub Each-remove {ν} : (P : V → Type ν) (k : K) (m : List (K × V)) → Each P m → Each P (remove k m)
  Each-remove P k m each j w h = each j w (ground (arith, lookup-remove k j m))

  pub ruleset map_laws = (lookup-insert, lookup-remove)
