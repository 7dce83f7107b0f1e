-- ===== src/Tests/Chain.antt =====
-- Names as numbers: 1 and 2 lead to each other, 2 leads to 3, which is blocked.
use pari_ns.Prelude.{
  ℕ, ◌≡◌, refl, Option, none, some, List, [], ◌∷◌, ◌==◌, if◌then◌else◌, ℕ_discrete,
}
use pari_ns.Prelude.Bytes.{reverse}
use pari_ns.Policy.Chain.{Answer, replaced, passed, is_in, targets, follow_links, apply_response}

abbrev link : ℕ → ℕ → Answer ℕ
link a b = record { name = a; dns_class = 1; cname = some b }

abbrev answers : List (Answer ℕ)
answers = link 1 2 ∷ link 2 1 ∷ link 2 3 ∷ []

abbrev block : ℕ → Option ℕ
block n = if n == 3 then some 9 else none

program : Unit {0}
unfolding ℕ_discrete reverse is_in targets follow_links apply_response
program = tt

-- A link of another class is not followed.
chain_blocked : apply_response ℕ_discrete block 1 answers 3 1 ≡ replaced 9
unfolding program
chain_blocked = refl

chain_class : apply_response ℕ_discrete block 2 answers 3 1 ≡ passed
unfolding program
chain_class = refl
