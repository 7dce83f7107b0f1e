-- ===== src/Policy/Radix/Members.antt =====
-- policy/radix.rs: what holds of the matches that a walk can give, from the keys of its stops.
use pari_ns.Prelude.{
  ℕ, suc, ◌+◌, ◌≤◌, ◌≡◌, refl, sym, subst, Bool, true, false, Option, none, some, List, [], ◌∷◌,
  length, All, Option-cases, arith, inl, inr,
}
use pari_ns.Prelude.Bytes.{take}
use pari_ns.Policy.Key.{Bytes}
use pari_ns.Policy.Radix.{Group, block_suffix, block_exact, Match, found}
use pari_ns.Policy.Radix.Stored.{Sources}
use pari_ns.Policy.Radix.Path.{Stop, path, stop_at}
use pari_ns.Policy.Radix.Verdict.{match_at, whole_at, first, exact, candidates, with_match}
use pari_ns.Policy.Radix.Rank.{IsOneOf}

stop_at-All {ℓ} :
    (P : Stop → Type ℓ) (o : Option Sources) (p : ℕ) (w : Bool) (stops : List Stop)
    → ((src : Sources) → o ≡ some src → P (record { position = p; sources = src; whole = w }))
    → All P stops
    → All P (stop_at o p w stops)
stop_at-All P none p w stops h k = k
stop_at-All P (some src) p w stops h k = (h src refl, k)

-- A statement of each stop of a path, from the key that the stop has.
pub path-All {ℓ} :
    (P : Stop → Type ℓ) (s : Bytes → Option Sources) (p : ℕ) (rest : Bytes)
    → ((n q : ℕ) (w : Bool) (src : Sources)
        → n ≤ length rest
        → q ≡ p + n
        → s (take n rest) ≡ some src
        → P (record { position = q; sources = src; whole = w }))
    → All P (path s p rest)
unfolding path take
path-All P s p [] h =
    stop_at-All P (s []) p true [] (λ src e. h 0 p true src (omega arith) (omega arith) e) tt
path-All P s p (b ∷ rest) h =
    stop_at-All P (s []) p false _ (λ src e. h 0 p false src (omega arith) (omega arith) e)
      (path-All P (λ k. s (b ∷ k)) (p + 1) rest
        (λ n q w src small here e. h (suc n) q w src (omega arith) (omega arith) e))

module _ {ℓ} (Good : Match → Type ℓ) where
  -- Every match at the stop is good.
  abbrev pub GoodStop : Stop → Type ℓ
  GoodStop stop = (g : Group) (m : Match) → match_at g stop ≡ some m → Good m

  pub first-Good :
      (g : Group) (stops : List Stop) (m : Match)
      → All GoodStop stops
      → first g stops ≡ some m
      → Good m
  unfolding first
  first-Good g [] m h e = cc
  first-Good g (stop ∷ stops) m h e = elim (Option-cases (match_at g stop)) [
    | inl nothing ↦ first-Good g stops m h.1 (ground arith)
    | inr (m', here) ↦ h.0 g m (ground arith)
  ]

  pub exact-Good :
      (g : Group) (stops : List Stop) (m : Match)
      → All GoodStop stops
      → exact g stops ≡ some m
      → Good m
  unfolding exact
  exact-Good g [] m h e = cc
  exact-Good g (stop ∷ stops) m h e = elim (Option-cases (whole_at g stop)) [
    | inl nothing ↦ exact-Good g stops m h.1 (ground arith)
    | inr (m', here) ↦ h.0 g m (ground arith)
  ]

  pub with_match-Good :
      (o : Option Match) (ms : List Match)
      → ((m : Match) → o ≡ some m → Good m)
      → All Good ms
      → All Good (with_match o ms)
  with_match-Good none ms h k = k
  with_match-Good (some m) ms h k = (h m refl, k)

  pub candidates-Good : (stops : List Stop) → All GoodStop stops → All Good (candidates stops)
  unfolding candidates
  candidates-Good [] h = tt
  candidates-Good (stop ∷ stops) h = with_match-Good _ _ (h.0 block_suffix) (
      with_match-Good (whole_at block_exact stop) _ (λ m e. h.0 block_exact m (ground arith))
        (candidates-Good stops h.1))

  pub one-Good : (m : Match) (ms : List Match) → IsOneOf m ms → All Good ms → Good m
  one-Good m [] h k = absurd h
  one-Good m (x ∷ ms) (inl e) k = subst Good (sym e) k.0
  one-Good m (x ∷ ms) (inr h) k = one-Good m ms h k.1

pub first-group : (g : Group) (stops : List Stop) (m : Match) → first g stops ≡ some m → m.group ≡ g
unfolding first found
first-group g [] m h = cc
first-group g (stop ∷ stops) m h = ground (arith, first-group g stops m)

pub exact-group : (g : Group) (stops : List Stop) (m : Match) → exact g stops ≡ some m → m.group ≡ g
unfolding exact found
exact-group g [] m h = cc
exact-group g (stop ∷ stops) m h = ground (arith, exact-group g stops m)

pub candidates-none :
    (stops : List Stop)
    → candidates stops ≡ []
    → (first block_suffix stops ≡ none) × (exact block_exact stops ≡ none)
unfolding candidates first exact
candidates-none [] h = (refl, refl)
candidates-none (stop ∷ stops) h = ground (arith, candidates-none stops)

pub none-candidates :
    (stops : List Stop)
    → first block_suffix stops ≡ none
    → exact block_exact stops ≡ none
    → candidates stops ≡ []
unfolding candidates first exact
none-candidates [] h k = refl
none-candidates (stop ∷ stops) h k = ground (arith, none-candidates stops)
