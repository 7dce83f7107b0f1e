-- ===== src/Policy/Radix/Rank.antt =====
-- policy/radix.rs, `Index::block_match`: the rank is an order, and the chosen rule is a least one.
use pari_ns.Prelude.{
  ℕ, ◌≡◌, refl, Bool, true, false, some, List, [], ◌∷◌, arith, ◌⊎◌, inl, inr, Bool-cases, All,
}
use pari_ns.Policy.Radix.{Match, consider, ranks_below, before}
use pari_ns.Policy.Radix.Verdict.{least}

before_trans :
    (a b c : ℕ) {s t u : Bool}
    → (s ≡ true → t ≡ true → u ≡ true)
    → before a b s ≡ true
    → before b c t ≡ true
    → before a c u ≡ true
unfolding before
before_trans a b c {s} {t} {u} tie h k = elim (Bool-cases s) [
  | inl x ↦ elim (Bool-cases t) [ inl y ↦ ground (arith, tie x y) | inr y ↦ ground arith ]
  | inr x ↦ ground arith
]

-- What is before another is before or after any third.
before_cotrans :
    (a b c : ℕ) {s t u : Bool}
    → (u ≡ true → s ≡ false → t ≡ true)
    → before a c u ≡ true
    → before a b s ≡ false
    → before b c t ≡ true
unfolding before
before_cotrans a b c {s} {t} {u} tie h k = elim (Bool-cases u) [
  | inl x ↦ elim (Bool-cases s) [ inl y ↦ ground arith | inr y ↦ ground (arith, tie x y) ]
  | inr x ↦ ground arith
]

before_cotrans_reverse :
    (a b c : ℕ) {s t u : Bool}
    → (u ≡ true → s ≡ false → t ≡ true)
    → before c a u ≡ true
    → before b a s ≡ false
    → before c b t ≡ true
unfolding before
before_cotrans_reverse a b c {s} {t} {u} tie h k = elim (Bool-cases u) [
  | inl x ↦ elim (Bool-cases s) [ inl y ↦ ground arith | inr y ↦ ground (arith, tie x y) ]
  | inr x ↦ ground arith
]

module _ (slots : ℕ) (a b c : Match) where
  ranks_trans :
      ranks_below slots a b ≡ true → ranks_below slots b c ≡ true → ranks_below slots a c ≡ true
  unfolding ranks_below
  ranks_trans = before_trans _ _ _ (
      before_trans _ _ _ (λ h k.
        before_trans _ _ _
          (λ k h. before_trans a.source_slot b.source_slot c.source_slot (λ h k. h) h k) k h))

  ranks_cotrans :
      ranks_below slots a c ≡ true → ranks_below slots a b ≡ false → ranks_below slots b c ≡ true
  unfolding ranks_below
  ranks_cotrans = before_cotrans _ _ _ (
      before_cotrans _ _ _ (
        before_cotrans_reverse a.matched_key_len b.matched_key_len c.matched_key_len
          (before_cotrans a.source_slot b.source_slot c.source_slot (λ h k. h))))

-- No one has a lower rank.
abbrev pub IsLeast : ℕ → Match → List Match → Type 0
IsLeast slots m = All (λ c. ranks_below slots c m ≡ false)

abbrev pub IsOneOf : Match → List Match → Type 0
IsOneOf m [] = ⊥
IsOneOf m (x ∷ ms) = (m ≡ x) ⊎ IsOneOf m ms

keep_member :
    (m best x : Match) (ms : List Match) → IsOneOf m (best ∷ ms) → IsOneOf m (best ∷ x ∷ ms)
keep_member m best x ms (inl e) = inl e
keep_member m best x ms (inr h) = inr (inr h)

pub record Chooses (slots : ℕ) (best : Match) (ms : List Match) (m : Match) : Type 0 where
  pub chosen : least slots (some best) ms ≡ some m
  pub not_above : ranks_below slots best m ≡ false
  pub least_rank : IsLeast slots m ms
  pub member : IsOneOf m (best ∷ ms)

ranks_irrefl : (slots : ℕ) (m : Match) → ranks_below slots m m ≡ false
unfolding ranks_below before
ranks_irrefl slots m = ground arith

pub least-Chooses :
    (slots : ℕ) (best : Match) (ms : List Match) → (m : Match) × Chooses slots best ms m
unfolding least consider
least-Chooses slots best [] = (
  best,
  record { chosen = refl; not_above = ranks_irrefl slots best; least_rank = tt; member = inl refl },
)
least-Chooses slots best (x ∷ ms) = elim (Bool-cases (ranks_below slots x best)) [
  | inl lower ↦
      let (m, c) = least-Chooses slots x ms in
      (
        m,
        record {
          chosen = rw lower c.chosen;
          not_above = ground (arith, ranks_trans slots x best m, c.not_above);
          member = inr c.member;
          least_rank = (c.not_above, c.least_rank);
        },
      )
  | inr not_lower ↦
      let (m, c) = least-Chooses slots best ms in
      (
        m,
        record {
          chosen = rw not_lower c.chosen;
          not_above = c.not_above;
          least_rank = (ground (arith, ranks_cotrans slots x best m, c.not_above), c.least_rank);
          member = keep_member m best x ms c.member;
        },
      )
]
