-- ===== src/Prelude/Lists.antt =====
-- Lists measured by native numbers, and the number of times that a key occurs in one.
use Prim.Native.Nat.{ℕ, suc, ◌+◌}
use mathlib.Core.Path.{◌≡◌, refl}
use mathlib.Core.List.{List, [], ◌∷◌, ◌++◌}
use native.Mathlib.Omega.{arith}

module _ {ℓ} {A : Type ℓ} where
  abbrev pub length : List A → ℕ
  length [] = 0
  length (x ∷ xs) = suc (length xs)

  pub length-append : (xs ys : List A) → length (xs ++ ys) ≡ length xs + length ys
  length-append [] ys = omega arith
  length-append (x ∷ xs) ys = omega (arith, length-append xs ys)

  -- A predicate of every element.
  abbrev pub All {κ} : (A → Type κ) → List A → Type κ
  All P [] = Unit
  All P (x ∷ xs) = P x × All P xs

  pub All-append {κ} : (P : A → Type κ) (xs ys : List A) → All P xs → All P ys → All P (xs ++ ys)
  All-append P [] ys h k = k
  All-append P (x ∷ xs) ys h k = (h.0, All-append P xs ys h.1 k)

  pub All-map {κ λ'} :
      {P : A → Type κ} {Q : A → Type λ'}
      → ((a : A) → P a → Q a)
      → (xs : List A) → All P xs
      → All Q xs
  All-map f [] h = tt
  All-map f (x ∷ xs) h = (f x h.0, All-map f xs h.1)

  pub All-both {κ λ'} :
      (P : A → Type κ) (Q : A → Type λ') (xs : List A)
      → All P xs
      → All Q xs
      → All (λ a. P a × Q a) xs
  All-both P Q [] h k = tt
  All-both P Q (x ∷ xs) h k = ((h.0, k.0), All-both P Q xs h.1 k.1)

-- A choice between numbers, at the one level of the numbers.
abbrev pub choose {ℓ} : {P : Type ℓ} → Dec P → ℕ → ℕ → ℕ
choose (yes p) a b = a
choose (no p) a b = b

pub choose_yes {ℓ} : {P : Type ℓ} (d : Dec P) (a b : ℕ) → P → choose d a b ≡ a
choose_yes (yes p) a b h = refl
choose_yes (no n) a b h = absurd (n h)

pub choose_no {ℓ} : {P : Type ℓ} (d : Dec P) (a b : ℕ) → ¬ P → choose d a b ≡ b
choose_no (yes p) a b h = absurd (h p)
choose_no (no n) a b h = refl

module _ {ℓ} {K : Type ℓ} (dec : Discrete K) where
  unfoldable pub count : K → List K → ℕ
  count k [] = 0
  count k (x ∷ xs) = choose (dec x k) 1 0 + count k xs

  pub count-append : (k : K) (xs ys : List K) → count k (xs ++ ys) ≡ count k xs + count k ys
  unfolding count
  count-append k [] ys = omega arith
  count-append k (x ∷ xs) ys = omega (arith, count-append k xs ys)
