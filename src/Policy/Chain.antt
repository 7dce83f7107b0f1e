-- ===== src/Policy/Chain.antt =====
-- policy.rs, `Policy::apply_response`: the names that an answer's CNAME records lead to. The
-- comparison of names is the DNS library's. `block` is `block_answer` for the query, and what it
-- gives is a parameter. The stack is a list with its top first, and the fuel is more than the
-- answer's records.
pub mod Reached
use pari_ns.Prelude.{
  ℕ, zero, suc, Bool, true, false, ◌&&◌, Option, none, some, List, [], ◌∷◌, ◌++◌, ◌==◌, length,
  if◌then◌else◌,
}
use pari_ns.Prelude.Bytes.{reverse}

-- A record of an answer; `cname` is the target of a CNAME.
pub record Answer (N : Type 0) : Type 0 where
  pub name : N
  pub dns_class : ℕ
  pub cname : Option N

pub data Screened (A : Type 0) : Type 0 where
  replaced : A → Screened A
  passed : Screened A
  spent : Screened A

module _ {N : Type 0} (dec : Discrete N) where
  abbrev pub same_name : N → N → Bool
  same_name a b = elim (dec a b) [ yes e ↦ true | no ne ↦ false ]

  -- The visited names.
  unfoldable pub is_in : N → List N → Bool
  is_in n [] = false
  is_in n (m ∷ ms) = let rest = is_in n ms in if same_name n m then true else rest

  -- The entry of a name in `links`.
  unfoldable pub targets : ℕ → List (Answer N) → N → List N
  targets cls [] n = []
  targets cls (r ∷ rs) n =
      let rest = targets cls rs n in
      elim r.cname [
        | none ↦ rest
        | some target ↦ if r.dns_class == cls && same_name r.name n then target ∷ rest else rest
      ]

  module _ {A : Type 0} (block : N → Option A) (cls : ℕ) (answers : List (Answer N)) where
    unfoldable pub follow_links : ℕ → List N → List N → Screened A
    follow_links zero pending visited = spent
    follow_links (suc fuel) [] visited = passed
    follow_links (suc fuel) (n ∷ pending) visited = elim (is_in n visited) [
      | true ↦ follow_links fuel pending visited
      | false ↦ elim (block n) [
        | some answer ↦ replaced answer
        | none ↦ follow_links fuel (reverse (targets cls answers n) ++ pending) (n ∷ visited)
      ]
    ]

    -- `Policy::apply_response`, for the class and name of the question.
    unfoldable pub apply_response : ℕ → N → Screened A
    apply_response index_rules question =
        if index_rules == 0
        then passed
        else follow_links (suc (suc (length answers))) (question ∷ []) []
