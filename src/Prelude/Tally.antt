-- ===== src/Prelude/Tally.antt =====
-- The sum of a measure over the values of a map whose keys stand once each.
use Prim.Native.Nat.{ℕ, ◌+◌, ◌≤◌}
use mathlib.Core.Path.{◌≡◌, refl}
use mathlib.Core.List.{List, [], ◌∷◌, ◌++◌}
use mathlib.Core.Option.{none, some}
use native.Mathlib.Omega.{arith}
use pari_ns.Prelude.Lists.{count}
use pari_ns.Prelude.Assoc.{keys, lookup, remove}

module _ {ℓ} {K V : Type ℓ} (dec : Discrete K) (f : V → ℕ) where
  unfoldable pub tally : List (K × V) → ℕ
  tally [] = 0
  tally ((k, v) ∷ m) = f v + tally m

  pub tally-append : (m n : List (K × V)) → tally (m ++ n) ≡ tally m + tally n
  unfolding tally
  tally-append [] n = omega arith
  tally-append ((k, v) ∷ m) n = omega (arith, tally-append m n)

  pub tally-remove_absent :
      (k : K) (m : List (K × V)) → lookup dec k m ≡ none → tally (remove dec k m) ≡ tally m
  unfolding tally lookup remove
  tally-remove_absent k [] h = refl
  tally-remove_absent k ((j, w) ∷ m) h = ground (arith, tally-remove_absent k m)

  lookup_of_count : (k : K) (m : List (K × V)) → count dec k (keys m) ≡ 0 → lookup dec k m ≡ none
  unfolding count lookup
  lookup_of_count k [] h = refl
  lookup_of_count k ((j, w) ∷ m) h = ground (arith, lookup_of_count k m)

  pub tally-remove :
      (k : K) (v : V) (m : List (K × V))
      → lookup dec k m ≡ some v
      → count dec k (keys m) ≤ 1
      → tally m ≡ f v + tally (remove dec k m)
  unfolding tally lookup remove count
  tally-remove k v [] h u = cc
  tally-remove k v ((j, w) ∷ m) h u =
      ground (arith, tally-remove k v m, tally-remove_absent k m, lookup_of_count k m)
