-- ===== src/Refresh/Room.antt =====
-- resolver/refresh.rs: the sizes of the sets and tables of the refresh owner.
use pari_ns.Prelude.{
  ℕ, ◌+◌, ◌≤◌, ◌<◌, ◌≡◌, inl, inr, Bool, some, List, [], ◌∷◌, arith, ltb, leb, length, count,
  choose, Bool-cases,
}
use pari_ns.Prelude.Assoc.{lookup, insert, length-remove_present}
use pari_ns.Sharing.Samples.{retain}
use pari_ns.Refresh.Owner.{pop_starts, first_until, make_room, without}

pub length-retain-le {ℓ} :
    {A : Type ℓ} (keep : A → Bool) (xs : List A) → length (retain keep xs) ≤ length xs
unfolding retain
length-retain-le keep [] = omega arith
length-retain-le keep (x ∷ xs) = ground (arith, length-retain-le keep xs)

pub length-pop_starts-le :
    (now : ℕ) (starts : List ℕ) → length (pop_starts now starts) ≤ length starts
unfolding pop_starts
length-pop_starts-le now [] = omega arith
length-pop_starts-le now (s ∷ starts) = ground (arith, length-pop_starts-le now starts)

module _ {K : Type 0} (dec : Discrete K) where
  pub count-without :
      (key k : K) (ks : List K)
      → count dec k (without dec key ks) ≡ choose (dec key k) 0 (count dec k ks)
  unfolding count without
  count-without key k [] = ground arith
  count-without key k (j ∷ ks) = ground (arith, count-without key k ks)

  pub length-without-le : (key : K) (ks : List K) → length (without dec key ks) ≤ length ks
  unfolding without
  length-without-le key [] = omega arith
  length-without-le key (j ∷ ks) = ground (arith, length-without-le key ks)

  Found : K → List (K × ℕ) → Type 0
  Found k m = (v : ℕ) × (lookup dec k m ≡ some v)

  found-cons : (k j : K) (w : ℕ) (m : List (K × ℕ)) → Found k m → Found k ((j, w) ∷ m)
  unfolding lookup Found
  found-cons k j w m (v, h) = elim (dec j k) [
    | yes e ↦ (w, ground arith)
    | no n ↦ (v, ground arith)
  ]

  found-middle : (k : K) (b q : K × ℕ) (m : List (K × ℕ)) → Found k (b ∷ m) → Found k (b ∷ q ∷ m)
  unfolding lookup Found
  found-middle k (i, u) (j, w) m (v, h) = elim (dec i k) [
    | yes e ↦ (u, ground arith)
    | no n ↦ elim (dec j k) [ yes e ↦ (w, ground arith) | no n' ↦ (v, ground arith) ]
  ]

  found_self : (q : K × ℕ) (m : List (K × ℕ)) → Found q.0 (q ∷ m)
  unfolding lookup Found
  found_self (k, v) m = (v, ground arith)

  first_until-Found :
      (best : K × ℕ) (qs : List (K × ℕ)) → Found (first_until dec best qs).0 (best ∷ qs)
  unfolding first_until
  first_until-Found best [] = found_self best []
  first_until-Found best (q ∷ qs) = elim (Bool-cases (ltb q.1 best.1)) [
    | inl lt ↦ rw (lt, first_until) (found-cons _ best.0 best.1 (q ∷ qs) (first_until-Found q qs))
    | inr ge ↦ rw (ge, first_until) (found-middle _ best q qs (first_until-Found best qs))
  ]

  pub length-make_room :
      (capacity : ℕ) (m : List (K × ℕ))
      → 0 < capacity
      → length m ≤ capacity
      → length (make_room dec capacity m) + 1 ≤ capacity
  unfolding make_room Found
  length-make_room capacity [] pos h = omega arith
  length-make_room capacity (q ∷ qs) pos h = elim (Bool-cases (leb capacity (length (q ∷ qs)))) [
    | inr no_ ↦ rw (no_, make_room) (ground arith)
    | inl full ↦
        let (v, f) = first_until-Found q qs in
        rw (full, make_room)
          (omega (arith, length-remove_present dec (first_until dec q qs).0 (q ∷ qs) v f, h))
  ]

  pub length-insert-le :
      (k : K) (v : ℕ) (m : List (K × ℕ)) → length (insert dec k v m) ≤ length m + 1
  unfolding insert
  length-insert-le k v [] = omega arith
  length-insert-le k v ((j, w) ∷ m) = ground (arith, length-insert-le k v m)
