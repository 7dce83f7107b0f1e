-- ===== src/Prelude/Snoc.antt =====
-- A map with an entry of a new key added at its front or at its end.
use Prim.Native.Nat.{◌+◌}
use mathlib.Core.Path.{◌≡◌, refl}
use mathlib.Core.Logic.{◌⊎◌, inl, inr}
use mathlib.Core.List.{List, [], ◌∷◌, ◌++◌}
use mathlib.Core.Option.{none, some}
use native.Mathlib.Omega.{arith}
use pari_ns.Prelude.Lists.{choose, count}
use pari_ns.Prelude.Assoc.{keys, lookup, remove}

module _ {K V : Type 0} (dec : Discrete K) where
  pub remove_absent : (k : K) (m : List (K × V)) → lookup dec k m ≡ none → remove dec k m ≡ m
  unfolding lookup remove
  remove_absent k [] h = refl
  remove_absent k ((j, w) ∷ m) h = ground (arith, remove_absent k m)

  pub lookup-snoc_old :
      (j k : K) (v d : V) (m : List (K × V))
      → lookup dec j m ≡ some d
      → lookup dec j (m ++ (k, v) ∷ []) ≡ some d
  unfolding lookup
  lookup-snoc_old j k v d [] h = cc
  lookup-snoc_old j k v d ((i, w) ∷ m) h = ground (arith, lookup-snoc_old j k v d m)

  pub lookup-snoc_new :
      (k : K) (v : V) (m : List (K × V))
      → lookup dec k m ≡ none
      → lookup dec k (m ++ (k, v) ∷ []) ≡ some v
  unfolding lookup
  lookup-snoc_new k v [] h = ground arith
  lookup-snoc_new k v ((i, w) ∷ m) h = ground (arith, lookup-snoc_new k v m)

  pub lookup-snoc_cases :
      (j k : K) (v d : V) (m : List (K × V))
      → lookup dec j (m ++ (k, v) ∷ []) ≡ some d
      → (lookup dec j m ≡ some d) ⊎ ((k ≡ j) × (v ≡ d))
  unfolding lookup
  lookup-snoc_cases j k v d [] h = elim (dec k j) [
    | yes e ↦ inr (e, ground arith)
    | no n ↦ absurd (ground arith)
  ]
  lookup-snoc_cases j k v d ((i, w) ∷ m) h = elim (dec i j) [
    | yes e ↦ inl (ground arith)
    | no n ↦ elim (lookup-snoc_cases j k v d m (ground arith)) [
      | inl q ↦ inl (ground arith)
      | inr q ↦ inr q
    ]
  ]

  pub count-snoc :
      (j k : K) (v : V) (m : List (K × V))
      → count dec j (keys (m ++ (k, v) ∷ [])) ≡ choose (dec k j) 1 0 + count dec j (keys m)
  unfolding count
  count-snoc j k v [] = omega arith
  count-snoc j k v ((i, w) ∷ m) = omega (arith, count-snoc j k v m)

  pub lookup-cons_old :
      (j k : K) (v d : V) (m : List (K × V))
      → lookup dec k m ≡ none
      → lookup dec j m ≡ some d
      → lookup dec j ((k, v) ∷ m) ≡ some d
  unfolding lookup
  lookup-cons_old j k v d m h e = ground arith

  pub lookup-cons_new : (k : K) (v : V) (m : List (K × V)) → lookup dec k ((k, v) ∷ m) ≡ some v
  unfolding lookup
  lookup-cons_new k v m = ground arith

  pub lookup-cons_cases :
      (j k : K) (v d : V) (m : List (K × V))
      → lookup dec j ((k, v) ∷ m) ≡ some d
      → (lookup dec j m ≡ some d) ⊎ ((k ≡ j) × (v ≡ d))
  unfolding lookup
  lookup-cons_cases j k v d m h = elim (dec k j) [
    | yes e ↦ inr (e, ground arith)
    | no n ↦ inl (ground arith)
  ]

  -- Removing the new key again.
  pub remove-cons :
      (k : K) (v : V) (m : List (K × V)) → lookup dec k m ≡ none → remove dec k ((k, v) ∷ m) ≡ m
  unfolding remove
  remove-cons k v m h = ground (arith, remove_absent k m)
