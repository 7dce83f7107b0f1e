-- ===== src/Sharing/Samples.antt =====
-- cache/sharing.rs: the samples of one record, and the test that promotes them.
use pari_ns.Prelude.{
  ℕ, zero, suc, min, Bool, true, false, ◌||◌, Option, none, some, List, [], ◌∷◌, ltb, if◌then◌else◌,
  ite, length,
}
use pari_ns.Net.{is_ipv4, IpNet}

-- `Vec::retain`.
unfoldable pub retain {ℓ} : {A : Type ℓ} → (A → Bool) → List A → List A
retain keep [] = []
retain keep (x ∷ xs) = if keep x then x ∷ retain keep xs else retain keep xs

-- The last element moves to the front.
unfoldable pub push_second {ℓ} : {A : Type ℓ} → A → List A → List A
push_second x [] = x ∷ []
push_second x (l ∷ xs) = l ∷ x ∷ xs

unfoldable pub last_first {ℓ} : {A : Type ℓ} → List A → List A
last_first [] = []
last_first (x ∷ []) = x ∷ []
last_first (x ∷ y ∷ ys) = push_second x (last_first (y ∷ ys))

-- `Vec::swap_remove`: the last element takes the place of the one removed. Out of range, where the
-- source would panic, the list stays; the index is always that of an element.
unfoldable pub swap_remove {ℓ} : {A : Type ℓ} → ℕ → List A → List A
swap_remove i [] = []
swap_remove zero (x ∷ xs) = last_first xs
swap_remove (suc i) (x ∷ xs) = x ∷ swap_remove i xs

module _ (ip : IpNet) where
  open ip use {Net, net_discrete, addr, prefix_len, new, trunc, contains}

  pub record Sample : Type 0 where
    pub network : Net
    pub expires : ℕ

  abbrev pub overlaps : Net → Net → Bool
  overlaps n m = contains m (addr n) || contains n (addr m)

  -- The index of the first sample that expires earliest, from `i` on, where `best` at index `b`
  -- is the earliest so far.
  unfoldable pub oldest_from : ℕ → ℕ → ℕ → List Sample → ℕ
  oldest_from b best i [] = b
  oldest_from b best i (s ∷ ss) =
      if ltb s.expires best
      then oldest_from i s.expires (suc i) ss
      else oldest_from b best (suc i) ss

  -- `min_by_key` over the enumerated samples; 0 where there is none.
  unfoldable pub oldest : List Sample → ℕ
  oldest [] = 0
  oldest (s ∷ ss) = oldest_from 0 s.expires 1 ss

  -- The /16 of an IPv4 network or the /32 of an IPv6 network, or a wider network itself.
  unfoldable pub span : Sample → Option Net
  span s =
      elim (new (addr s.network)
        (min (prefix_len s.network) (if is_ipv4 (addr s.network) then 16 else 32))) [
          | none ↦ none
          | some n ↦ some (trunc n)
        ]

  -- `!=` of two spans.
  unfoldable pub differs : Option Net → Option Net → Bool
  differs none none = false
  differs (some n) (some m) = ite (net_discrete n m) false true
  differs _ _ = true

  unfoldable pub any_differs : Option Net → List Sample → Bool
  any_differs first [] = false
  any_differs first (s ∷ ss) = differs (span s) first || any_differs first ss

  -- The list is not empty where the source calls it.
  unfoldable pub promotable : List Sample → ℕ → Bool
  promotable [] m = false
  promotable (s ∷ ss) m = if ltb (length (s ∷ ss)) m then false else any_differs (span s) (s ∷ ss)
