-- ===== src/Policy/Explain.antt =====
-- policy.rs: what a policy says of a name, and which rule it says decides.
use pari_ns.Prelude.{Bool, true, false, Option, none, some, List, if◌then◌else◌}
use pari_ns.Prelude.Bytes.{nth}
use pari_ns.Policy.Key.{Bytes, query, is_empty}
use pari_ns.Policy.Radix.{
  Group, allow_suffix, allow_exact, block_suffix, block_exact, Index, Match, finished, panicked,
  spent, lookup, block_match,
}
use pari_ns.Policy.Responses.{Responses}
use pari_ns.Policy.Text.{rule_text}

pub record Policy : Type 0 where
  pub index : Index
  pub source_ids : List Bytes
  pub responses : Responses

pub data Decision : Type 0 where
  allowed : Decision
  blocked : Decision
  unmatched : Decision

pub data Scope : Type 0 where
  exact : Scope
  suffix : Scope

pub record Witness : Type 0 where
  pub source_id : Option Bytes
  pub rule : Bytes
  pub scope : Scope

pub record Explanation : Type 0 where
  pub decision : Decision
  pub witness : Option Witness

pub data Explained : Type 0 where
  explained : Explanation → Explained
  panic : Explained

-- `group as u8 >= 2`.
abbrev pub is_block : Group → Bool
is_block allow_suffix = false
is_block allow_exact = false
is_block block_suffix = true
is_block block_exact = true

-- `(group as u8).is_multiple_of(2)`.
abbrev pub scope_of : Group → Scope
scope_of allow_suffix = suffix
scope_of allow_exact = exact
scope_of block_suffix = suffix
scope_of block_exact = exact

-- The explanation by a match; the decoding of text is a parameter.
unfoldable pub explain_match : (Bytes → Option Bytes) → Policy → Bytes → Match → Explained
explain_match from_utf8 policy key m = elim (nth m.source_slot policy.source_ids) [
  | none ↦ panic
  | some id ↦ elim (rule_text from_utf8 key m.matched_key_len) [
    | none ↦ panic
    | some text ↦ explained (record {
      decision = if is_block m.group then blocked else allowed;
      witness = some (record {
        source_id = if is_empty id then none else some id;
        rule = text;
        scope = scope_of m.group;
      });
    })
  ]
]

-- The block rule that chooses the answer stands for the one that the lookup met.
unfoldable pub explain_found : (Bytes → Option Bytes) → Policy → Bytes → Match → Explained
explain_found from_utf8 policy key m =
    if is_block m.group
    then elim (block_match policy.index key policy.responses.local_slots) [
      | finished (some best) ↦ explain_match from_utf8 policy key best
      | _ ↦ panic
    ]
    else explain_match from_utf8 policy key m

-- `Policy::explain`, for a name as its labels.
unfoldable pub explain : (Bytes → Option Bytes) → Policy → List Bytes → Explained
explain from_utf8 policy name = elim (query name) [
  | none ↦ panic
  | some key ↦ elim (lookup policy.index key) [
    | finished none ↦ explained (record { decision = unmatched; witness = none })
    | finished (some m) ↦ explain_found from_utf8 policy key m
    | panicked ↦ panic
    | spent ↦ panic
  ]
]

-- `Policy::blocks`; none is a panic.
unfoldable pub blocks : Policy → List Bytes → Option Bool
blocks policy name = elim (query name) [
  | none ↦ none
  | some key ↦ elim (lookup policy.index key) [
    | finished none ↦ some false
    | finished (some m) ↦ some (is_block m.group)
    | panicked ↦ none
    | spent ↦ none
  ]
]
