-- ===== src/Sharing/Apart.antt =====
-- cache/sharing.rs: what the operations on a list of samples keep of it.
use pari_ns.Prelude.{
  ℕ, zero, suc, ◌+◌, ◌≤◌, ◌<◌, ◌≡◌, refl, inl, inr, Bool, true, List, [], ◌∷◌, ◌++◌, arith, length,
  All, All-append, Bool-cases,
}
use pari_ns.Net.{IpNet}
use pari_ns.Sharing.Samples.{
  retain, push_second, last_first, swap_remove, Sample, oldest_from, oldest,
}

module _ {ℓ} {A : Type ℓ} where
  -- A relation of each element to all later ones.
  abbrev pub Pairwise {κ} : (A → A → Type κ) → List A → Type κ
  Pairwise R [] = Unit
  Pairwise R (x ∷ xs) = All (R x) xs × Pairwise R xs

  pub All-retain {κ} :
      (P : A → Type κ) (keep : A → Bool) (xs : List A) → All P xs → All P (retain keep xs)
  unfolding retain
  All-retain P keep [] h = tt
  All-retain P keep (x ∷ xs) h = elim (Bool-cases (keep x)) [
    | inl e ↦ rw (e, retain) (h.0, All-retain P keep xs h.1)
    | inr e ↦ rw (e, retain) (All-retain P keep xs h.1)
  ]

  pub retain_kept : (keep : A → Bool) (xs : List A) → All (λ x. keep x ≡ true) (retain keep xs)
  unfolding retain
  retain_kept keep [] = tt
  retain_kept keep (x ∷ xs) = elim (Bool-cases (keep x)) [
    | inl e ↦ rw (e, retain) (e, retain_kept keep xs)
    | inr e ↦ rw (e, retain) (retain_kept keep xs)
  ]

  pub length-retain-le : (keep : A → Bool) (xs : List A) → length (retain keep xs) ≤ length xs
  unfolding retain
  length-retain-le keep [] = omega arith
  length-retain-le keep (x ∷ xs) = ground (arith, length-retain-le keep xs)

  pub Pairwise-retain {κ} :
      (R : A → A → Type κ) (keep : A → Bool) (xs : List A)
      → Pairwise R xs
      → Pairwise R (retain keep xs)
  unfolding retain
  Pairwise-retain R keep [] h = tt
  Pairwise-retain R keep (x ∷ xs) h = elim (Bool-cases (keep x)) [
    | inl e ↦ rw (e, retain) (All-retain (R x) keep xs h.0, Pairwise-retain R keep xs h.1)
    | inr e ↦ rw (e, retain) (Pairwise-retain R keep xs h.1)
  ]

  All-push_second {κ} :
      (P : A → Type κ) (x : A) (xs : List A) → P x → All P xs → All P (push_second x xs)
  unfolding push_second
  All-push_second P x [] p h = (p, tt)
  All-push_second P x (l ∷ xs) p h = (h.0, (p, h.1))

  All-last_first {κ} : (P : A → Type κ) (xs : List A) → All P xs → All P (last_first xs)
  unfolding last_first
  All-last_first P [] h = tt
  All-last_first P (x ∷ []) h = h
  All-last_first P (x ∷ y ∷ ys) h =
      All-push_second P x (last_first (y ∷ ys)) h.0 (All-last_first P (y ∷ ys) h.1)

  pub All-swap_remove {κ} :
      (P : A → Type κ) (i : ℕ) (xs : List A) → All P xs → All P (swap_remove i xs)
  unfolding swap_remove
  All-swap_remove P i [] h = tt
  All-swap_remove P zero (x ∷ xs) h = All-last_first P xs h.1
  All-swap_remove P (suc i) (x ∷ xs) h = (h.0, All-swap_remove P i xs h.1)

  length-push_second : (x : A) (xs : List A) → length (push_second x xs) ≡ suc (length xs)
  unfolding push_second
  length-push_second x [] = refl
  length-push_second x (l ∷ xs) = refl

  length-last_first : (xs : List A) → length (last_first xs) ≡ length xs
  unfolding last_first
  length-last_first [] = refl
  length-last_first (x ∷ []) = refl
  length-last_first (x ∷ y ∷ ys) =
      omega (arith, length-push_second x (last_first (y ∷ ys)), length-last_first (y ∷ ys))

  pub length-swap_remove :
      (i : ℕ) (xs : List A) → i < length xs → suc (length (swap_remove i xs)) ≡ length xs
  unfolding swap_remove
  length-swap_remove i [] h = omega arith
  length-swap_remove zero (x ∷ xs) h = omega (arith, length-last_first xs)
  length-swap_remove (suc i) (x ∷ xs) h = omega (arith, length-swap_remove i xs (omega arith))

  pub Pairwise-push {κ} :
      (R : A → A → Type κ) (xs : List A) (y : A)
      → Pairwise R xs
      → All (λ x. R x y) xs
      → Pairwise R (xs ++ y ∷ [])
  Pairwise-push R [] y h k = (tt, tt)
  Pairwise-push R (x ∷ xs) y h k =
      (All-append (R x) xs (y ∷ []) h.0 (k.0, tt), Pairwise-push R xs y h.1 k.1)

  module _ {κ} (R : A → A → Type κ) (symmetric : (x y : A) → R x y → R y x) where
    Pairwise-push_second :
        (x : A) (xs : List A) → All (R x) xs → Pairwise R xs → Pairwise R (push_second x xs)
    unfolding push_second
    Pairwise-push_second x [] h k = (tt, tt)
    Pairwise-push_second x (l ∷ xs) h k = ((symmetric x l h.0, k.0), (h.1, k.1))

    Pairwise-last_first : (xs : List A) → Pairwise R xs → Pairwise R (last_first xs)
    unfolding last_first
    Pairwise-last_first [] h = tt
    Pairwise-last_first (x ∷ []) h = h
    Pairwise-last_first (x ∷ y ∷ ys) h =
        Pairwise-push_second x (last_first (y ∷ ys)) (All-last_first (R x) (y ∷ ys) h.0)
          (Pairwise-last_first (y ∷ ys) h.1)

    pub Pairwise-swap_remove : (i : ℕ) (xs : List A) → Pairwise R xs → Pairwise R (swap_remove i xs)
    unfolding swap_remove
    Pairwise-swap_remove i [] h = tt
    Pairwise-swap_remove zero (x ∷ xs) h = Pairwise-last_first xs h.1
    Pairwise-swap_remove (suc i) (x ∷ xs) h =
        (All-swap_remove (R x) i xs h.0, Pairwise-swap_remove i xs h.1)

module _ (ip : IpNet) where
  oldest_from_bound :
      (b best i n : ℕ) (ss : List (Sample ip))
      → b < n
      → i + length ss ≤ n
      → oldest_from ip b best i ss < n
  unfolding oldest_from
  oldest_from_bound b best i n [] h k = h
  oldest_from_bound b best i n (s ∷ ss) h k = ground (
    arith,
    oldest_from_bound i s.expires (suc i) n ss (omega arith) (omega arith),
    oldest_from_bound b best (suc i) n ss h (omega arith),
  )

  -- The oldest sample is one of them.
  pub oldest_bound : (ss : List (Sample ip)) → 0 < length ss → oldest ip ss < length ss
  unfolding oldest
  oldest_bound [] h = h
  oldest_bound (s ∷ ss) h =
      oldest_from_bound 0 s.expires 1 (suc (length ss)) ss (omega arith) (omega arith)
