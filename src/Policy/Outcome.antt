-- ===== src/Policy/Outcome.antt =====
-- policy.rs: what the covering rules decide, and how the two walks agree on it.
use pari_ns.Prelude.{
  ℕ, ◌≡◌, refl, ap, true, false, none, some, List, [], ◌∷◌, if◌then◌else◌, All, Option-cases, arith,
  ◌⊎◌, inl, inr,
}
use pari_ns.Policy.Radix.{Group, allow_suffix, allow_exact, block_suffix, block_exact, Match, found}
use pari_ns.Policy.Radix.Stored.{Sources}
use pari_ns.Policy.Radix.Path.{Stop}
use pari_ns.Policy.Radix.Verdict.{
  covering, match_at, whole_at, first, verdict, is_allowed, is_some, candidates, with_match, least,
}
use pari_ns.Policy.Radix.Verdict as Verdict
use pari_ns.Policy.Radix.Members.{
  with_match-Good, first-group, exact-group, candidates-none, none-candidates,
}
use pari_ns.Policy.Explain.{Decision, allowed, blocked, unmatched, is_block}

-- What the covering rules decide.
unfoldable pub decide : List Stop → Decision
decide stops =
    if is_allowed stops then allowed else elim (candidates stops) [ [] ↦ unmatched | _ ↦ blocked ]

found-group : (s : Sources) (p : ℕ) (g : Group) (m : Match) → found s p g ≡ some m → m.group ≡ g
unfolding found
found-group s p g m h = ground arith

pub candidates-block : (stops : List Stop) → All (λ m. is_block m.group ≡ true) (candidates stops)
unfolding candidates
candidates-block [] = tt
candidates-block (stop ∷ stops) =
    with_match-Good _ _ _
      (λ m e. ap is_block (found-group stop.sources stop.position block_suffix m e))
      (with_match-Good _ (whole_at block_exact stop) _
        (λ m e. ap is_block (found-group stop.sources stop.position block_exact m (ground arith)))
        (candidates-block stops))

pub decide_allowed :
    (stops : List Stop) (g : Group)
    → is_allowed stops ≡ true
    → is_block g ≡ false
    → (if is_block g then blocked else allowed) ≡ decide stops
unfolding decide
decide_allowed stops g h k = rw (h, k) refl

pub decide_blocked :
    (stops : List Stop) (g : Group) (x : Match) (xs : List Match)
    → is_allowed stops ≡ false
    → candidates stops ≡ x ∷ xs
    → is_block g ≡ true
    → (if is_block g then blocked else allowed) ≡ decide stops
unfolding decide
decide_blocked stops g x xs h full k = rw (h, full, k) refl

-- How the verdict on a name comes about.
pub data Outcome (stops : List Stop) : Type 0 where
  by_allow :
      (m : Match) (g : Group)
      → is_allowed stops ≡ true
      → verdict stops ≡ some m
      → is_block m.group ≡ false
      → (first g stops ≡ some m) ⊎ (Verdict.exact g stops ≡ some m)
      → Outcome stops
  by_none : is_allowed stops ≡ false → candidates stops ≡ [] → verdict stops ≡ none → Outcome stops
  by_block :
      (m x : Match) (ms : List Match)
      → is_allowed stops ≡ false
      → candidates stops ≡ x ∷ ms
      → verdict stops ≡ some m
      → is_block m.group ≡ true
      → Outcome stops

List-cases : (ms : List Match) → (ms ≡ []) ⊎ ((x : Match) × (xs : List Match) × (ms ≡ x ∷ xs))
List-cases [] = inl refl
List-cases (x ∷ xs) = inr (x, xs, refl)

block_outcome :
    (stops : List Stop)
    → first allow_suffix stops ≡ none
    → Verdict.exact allow_exact stops ≡ none
    → Outcome stops
unfolding verdict is_allowed
block_outcome stops a b = elim (List-cases (candidates stops)) [
  | inl empty ↦
      let (c, d) = candidates-none stops empty in
      by_none (ground arith) empty (rw (a, b, c, d) refl)
  | inr (x, xs, full) ↦ elim (Option-cases (first block_suffix stops)) [
    | inr (m, c) ↦
        by_block m x xs (ground arith) full (rw (a, b, c) refl)
          (ap is_block (first-group block_suffix stops m c))
    | inl c ↦ elim (Option-cases (Verdict.exact block_exact stops)) [
      | inr (m, d) ↦
          by_block m x xs (ground arith) full (rw (a, b, c, d) refl)
            (ap is_block (exact-group block_exact stops m d))
      | inl d ↦ absurd (ground (arith, none-candidates stops))
    ]
  ]
]

pub outcome : (stops : List Stop) → Outcome stops
unfolding verdict is_allowed
outcome stops = elim (Option-cases (first allow_suffix stops)) [
  | inr (m, a) ↦
      by_allow m allow_suffix (ground arith) (rw a refl)
        (ap is_block (first-group allow_suffix stops m a)) (inl a)
  | inl a ↦ elim (Option-cases (Verdict.exact allow_exact stops)) [
    | inr (m, b) ↦
        by_allow m allow_exact (ground arith) (rw (a, b) refl)
          (ap is_block (exact-group allow_exact stops m b)) (inr b)
    | inl b ↦ block_outcome stops a b
  ]
]
