-- ===== src/Tests/Policy.antt =====
-- A policy with two rules: `B` blocks its names, and `a.b` allows itself. Text is taken as it is.
use pari_ns.Prelude.{
  ℕ, zero, suc, ◌+◌, ◌≡◌, ◌≢◌, refl, true, false, none, some, List, [], ◌∷◌, arith, sym, subst,
  some_eq, Bool-cases, ◌⊎◌, inl, inr, ◌≤◌, ◌<◌, map,
}
use pari_ns.Prelude.Bytes.{drop, take, nth, reverse, starts_with, same_bytes}
use pari_ns.Policy.Key.{
  Bytes, lower, push, push_all, query, are_valid, strip_dot, split, rule_key, rule_labels, rule,
}
use pari_ns.Policy.Labels.{starts_labels, encode}
use pari_ns.Policy.Rules
use pari_ns.Policy.Rules.{rule_names}
use pari_ns.Policy.Radix.{
  Group, allow_suffix, allow_exact, block_suffix, block_exact, no_slot, Node, Index, Match, found,
  edge, search_child, follow, descend, lookup_round, lookup_loop, lookup, ranks_below, before,
  consider, block_round, block_loop, block_match, finished,
}
use pari_ns.Policy.Radix.Stored.{
  Sources, Table, under, below, children, keys_at, stored, find, IsIndex, IsRising,
}
use pari_ns.Policy.Radix.Path.{path}
use pari_ns.Policy.Radix.Verdict.{covering, first, verdict, candidates, is_allowed}
use pari_ns.Policy.Radix.Verdict as Verdict
use pari_ns.Policy.Radix.Lookup
use pari_ns.Policy.Radix.Block
use pari_ns.Policy.Radix.Block.{IsChosen}
use pari_ns.Policy.Responses.{nxdomain}
use pari_ns.Policy.Text.{key_labels, push_label, push_labels, rule_text}
use pari_ns.Policy.Printing
use pari_ns.Policy.Explain.{
  Policy, allowed, blocked, Explanation, explained, explain_match, explain_found, explain, exact,
  suffix,
}
use pari_ns.Policy.Covered.{IsPolicy}
use pari_ns.Policy.Outcome.{decide}
use pari_ns.Policy.Disk.{
  are_bytes, key_is_valid, validate_key, slots_are_valid, rises, put_edge, enter_edge, enter_below,
  allocate, enter, advance, walk_round, walk_loop, walk_from, walk,
}
use pari_ns.Policy.Disk.Accepted
use pari_ns.Policy.Explained
use pari_ns.Policy.Explained.{Explains}

abbrev pub slots : ℕ → ℕ → Group → ℕ
slots exact_allow suffix_block allow_suffix = no_slot
slots exact_allow suffix_block allow_exact = exact_allow
slots exact_allow suffix_block block_suffix = suffix_block
slots exact_allow suffix_block block_exact = no_slot

abbrev pub root : Node
root = record {
  edge_offset = 0;
  first_child = 1;
  child_count = 1;
  edge_len = 0;
  first_byte = 0;
  sources = slots no_slot no_slot;
}

abbrev pub node_b : Node
node_b = record {
  edge_offset = 0;
  first_child = 2;
  child_count = 1;
  edge_len = 2;
  first_byte = 1;
  sources = slots no_slot 0;
}

abbrev pub node_a_b : Node
node_a_b = record {
  edge_offset = 2;
  first_child = 3;
  child_count = 0;
  edge_len = 2;
  first_byte = 1;
  sources = slots 1 no_slot;
}

abbrev pub index : Index
index = record { nodes = root ∷ node_b ∷ node_a_b ∷ []; arena = 1 ∷ 98 ∷ 1 ∷ 97 ∷ [] }

abbrev pub policy : Policy
policy = record {
  index = index;
  source_ids = [] ∷ (120 ∷ []) ∷ [];
  responses = record { global = nxdomain; ttl = 10; local_slots = 1; slots = none ∷ none ∷ [] };
}

-- `B` and `a.b.`.
abbrev text_b : Bytes
text_b = 66 ∷ []

abbrev text_a_b : Bytes
text_a_b = 97 ∷ 46 ∷ 98 ∷ 46 ∷ []

abbrev key_b : Bytes
key_b = 1 ∷ 98 ∷ []

abbrev pub key_a_b : Bytes
key_a_b = 1 ∷ 98 ∷ 1 ∷ 97 ∷ []

unfoldable pub program : Unit {0}
unfolding drop take nth reverse starts_with same_bytes lower push push_all query are_valid strip_dot
    split rule_labels rule starts_labels encode rule_names found edge search_child follow descend
    lookup_round lookup_loop lookup ranks_below before consider block_round block_loop block_match
    under below children keys_at stored find path covering first verdict candidates is_allowed
    Verdict.exact key_labels push_label push_labels rule_text explain_match explain_found explain
    decide
program = tt

rule_b : rule text_b ≡ rule_key key_b
unfolding program
rule_b = refl

rule_a_b : rule text_a_b ≡ rule_key key_a_b
unfolding program
rule_a_b = refl

-- The name `X.b`.
abbrev pub name_x_b : List Bytes
name_x_b = (88 ∷ []) ∷ (98 ∷ []) ∷ []

abbrev pub key_x_b : Bytes
key_x_b = 1 ∷ 98 ∷ 1 ∷ 120 ∷ []

pub query_x_b : query name_x_b ≡ some key_x_b
unfolding program
query_x_b = refl

lookup_x_b :
    lookup index key_x_b
    ≡ finished (some (record { group = block_suffix; source_slot = 0; matched_key_len = 2 }))
unfolding program
lookup_x_b = refl

same_bytes-eq : (a b : Bytes) → same_bytes a b ≡ true → a ≡ b
unfolding same_bytes
same_bytes-eq [] [] h = refl
same_bytes-eq [] (y ∷ b) h = cc
same_bytes-eq (x ∷ a) [] h = cc
same_bytes-eq (x ∷ a) (y ∷ b) h = ground (arith, same_bytes-eq a b)

node_cases :
    (P : ℕ → Node → Type 0)
    → P 0 root
    → P 1 node_b
    → P 2 node_a_b
    → (i : ℕ) (node : Node) → nth i index.nodes ≡ some node
    → P i node
unfolding nth
node_cases P a b c zero node h = subst (P 0) (some_eq h) a
node_cases P a b c (suc zero) node h = subst (P 1) (some_eq h) b
node_cases P a b c (suc (suc zero)) node h = subst (P 2) (some_eq h) c
node_cases P a b c (suc (suc (suc i))) node h = cc

index-IsIndex : IsIndex index
unfolding program
index-IsIndex = record {
  rooted = omega arith;
  in_range =
      node_cases (λ i node. (i < node.first_child) × (node.first_child + node.child_count ≤ 3))
        (omega arith) (omega arith) (omega arith);
  rising =
      node_cases (λ i node. IsRising index 0 node.child_count node.first_child)
        (node_b, 98 ∷ [], refl, refl, omega arith, tt)
        (node_a_b, 97 ∷ [], refl, refl, omega arith, tt) tt;
}

abbrev table : List (Bytes × Sources)
table = ([], slots no_slot no_slot) ∷ (key_b, slots no_slot 0) ∷ (key_a_b, slots 1 no_slot) ∷ []

find_none : (k : Bytes) (s : Sources) → find k [] ≢ some s
unfolding find
find_none k s h = cc

find-cons :
    (k k' : Bytes) (s s' : Sources) (t : Table)
    → find k ((k', s') ∷ t) ≡ some s
    → ((k' ≡ k) × (s' ≡ s)) ⊎ (find k t ≡ some s)
unfolding find
find-cons k k' s s' t h = elim (Bool-cases (same_bytes k k')) [
  | inl e ↦ inl (sym (same_bytes-eq k k' e), ground arith)
  | inr e ↦ inr (ground arith)
]

-- The text of a key's rule.
abbrev HasRule : Bytes → Sources → Type 0
HasRule k s = (g : Group) → s g ≢ no_slot → (text : Bytes) × (rule text ≡ rule_key k) × (s g < 2)

root-HasRule : HasRule [] (slots no_slot no_slot)
root-HasRule allow_suffix h = absurd (h refl)
root-HasRule allow_exact h = absurd (h refl)
root-HasRule block_suffix h = absurd (h refl)
root-HasRule block_exact h = absurd (h refl)

b-HasRule : HasRule key_b (slots no_slot 0)
b-HasRule allow_suffix h = absurd (h refl)
b-HasRule allow_exact h = absurd (h refl)
b-HasRule block_suffix h = (text_b, rule_b, omega arith)
b-HasRule block_exact h = absurd (h refl)

a_b-HasRule : HasRule key_a_b (slots 1 no_slot)
a_b-HasRule allow_suffix h = absurd (h refl)
a_b-HasRule allow_exact h = (text_a_b, rule_a_b, omega arith)
a_b-HasRule block_suffix h = absurd (h refl)
a_b-HasRule block_exact h = absurd (h refl)

move : {k k' : Bytes} {s s' : Sources} → HasRule k s → (k ≡ k') × (s ≡ s') → HasRule k' s'
move {k'} {s} h (e, f) = subst (HasRule k') f (subst (λ k. HasRule k s) e h)

table-HasRule : (k : Bytes) (s : Sources) → find k table ≡ some s → HasRule k s
table-HasRule k s h = elim (find-cons k [] s (slots no_slot no_slot) _ h) [
  | inl e ↦ move root-HasRule e
  | inr h ↦ elim (find-cons k key_b s (slots no_slot 0) _ h) [
    | inl e ↦ move b-HasRule e
    | inr h ↦ elim (find-cons k key_a_b s (slots 1 no_slot) _ h) [
      | inl e ↦ move a_b-HasRule e
      | inr h ↦ absurd (find_none k s h)
    ]
  ]
]

pub policy-IsPolicy : IsPolicy policy
unfolding program
policy-IsPolicy = record { indexed = index-IsIndex; rules = λ k s g e ne. table-HasRule k s e g ne }

rule-query_example :
    starts_with key_x_b key_b ≡ starts_labels (reverse name_x_b) (rule_names text_b)
rule-query_example = Rules.rule-query text_b name_x_b rule_b query_x_b

rule_text-rule_example : rule_text (λ l. some l) key_x_b 2 ≡ some (map lower (strip_dot text_b))
unfolding program
rule_text-rule_example =
    Printing.rule_text-rule (λ l. some l) (λ l h. refl) text_b key_x_b key_b rule_b refl

lookup-verdict_example : lookup index key_x_b ≡ finished (verdict (covering index key_x_b))
lookup-verdict_example = Lookup.lookup-verdict index index-IsIndex key_x_b

block_x_b : Match
block_x_b = record { group = block_suffix; source_slot = 0; matched_key_len = 2 }

block_match_x_b : block_match index key_x_b 1 ≡ finished (some block_x_b)
unfolding program block_x_b
block_match_x_b = refl

block_match-IsChosen_example :
    IsChosen 1 block_x_b (candidates (covering index key_x_b))
    × (is_allowed (covering index key_x_b) ≡ false)
block_match-IsChosen_example =
    Block.block_match-IsChosen index index-IsIndex key_x_b 1 block_x_b block_match_x_b

explain-Explains_example :
    (e : Explanation) × (explain (λ l. some l) policy name_x_b ≡ explained e)
    × Explains policy name_x_b key_x_b e
explain-Explains_example =
    Explained.explain-Explains (λ l. some l) (λ l h. refl) policy policy-IsPolicy name_x_b key_x_b
      query_x_b

-- `x.b` is blocked, and `A.B` allowed.
explain_x_b :
    explain (λ l. some l) policy name_x_b
    ≡ explained (record {
      decision = blocked;
      witness = some (record { source_id = none; rule = 98 ∷ []; scope = suffix });
    })
unfolding program
explain_x_b = refl

explain_a_b :
    explain (λ l. some l) policy ((65 ∷ []) ∷ (66 ∷ []) ∷ [])
    ≡ explained (record {
      decision = allowed;
      witness =
          some (record { source_id = some (120 ∷ []); rule = 97 ∷ 46 ∷ 98 ∷ []; scope = exact });
    })
unfolding program
explain_a_b = refl

walk_accepts : walk index 2 ≡ true
unfolding program are_bytes key_is_valid validate_key slots_are_valid rises put_edge enter_edge
    enter_below allocate enter advance walk_round walk_loop walk_from walk
walk_accepts = refl

walk-IsIndex_example : IsIndex index
walk-IsIndex_example = Accepted.walk-IsIndex index 2 walk_accepts

-- The child's edge begins with another byte than the node says.
walk_refuses : walk (record index { arena = 1 ∷ 98 ∷ 2 ∷ 97 ∷ [] }) 2 ≡ false
unfolding program are_bytes key_is_valid validate_key slots_are_valid rises put_edge enter_edge
    enter_below allocate enter advance walk_round walk_loop walk_from walk
walk_refuses = refl
