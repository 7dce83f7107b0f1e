-- ===== src/Policy/Trace.antt =====
-- policy.rs, `Policy::block_answer`: the rule that blocks a name, where it comes from, and what the
-- answer is made of. The message that `BlockResponse::answer` writes from the three parts of
-- `BlockAnswer` and from the query is left out. Names are the DNS library's: `labels` are the labels
-- of a name, and `from_ascii` is `Name::from_ascii`, none where it refuses the text.
use Prim.Native.String.{String}
use pari_ns.Prelude.{ℕ, Option, none, some, List, [], ◌∷◌, ◌++◌, if◌then◌else◌}
use pari_ns.Prelude.Bytes.{nth}
use pari_ns.Policy.Key.{Bytes, query, is_empty, dot}
use pari_ns.Policy.Radix.{Match, finished, panicked, spent, block_match}
use pari_ns.Policy.Responses.{BlockResponse, kind, response_of}
use pari_ns.Policy.Text.{rule_text}
use pari_ns.Policy.Explain.{Policy}

pub record BlockTrace : Type 0 where
  pub rule : Bytes
  pub source_id : Option Bytes
  pub response : String

-- The arguments of `BlockResponse::answer` beside the query.
pub record BlockAnswer (N : Type 0) : Type 0 where
  pub response : BlockResponse
  pub owner : N
  pub ttl : ℕ

pub data Blocking (N : Type 0) : Type 0 where
  not_blocked : Blocking N
  blocked_by : BlockAnswer N → BlockTrace → Blocking N
  panic : Blocking N

module _ {N : Type 0} (dec : Discrete N) (labels : N → List Bytes)
    (from_ascii : Bytes → Option N) where
  -- The owner of the SOA; none is the panic of `expect`.
  unfoldable pub owner_of : N → N → Bytes → Option N
  owner_of qname name rule = elim (dec name qname) [
    | yes same ↦ from_ascii (rule ++ dot ∷ [])
    | no other ↦ some qname
  ]

  unfoldable pub trace_match : (Bytes → Option Bytes) → Policy → N → N → Bytes → Match → Blocking N
  trace_match from_utf8 policy qname name key found =
      let response = response_of policy.responses found.source_slot in
      elim (rule_text from_utf8 key found.matched_key_len) [
        | none ↦ panic
        | some rule ↦ elim (owner_of qname name rule) [
          | none ↦ panic
          | some owner ↦ elim (nth found.source_slot policy.source_ids) [
            | none ↦ panic
            | some id ↦
                blocked_by
                  (record { response = response; owner = owner; ttl = policy.responses.ttl })
                  (record {
                    rule = rule;
                    source_id = if is_empty id then none else some id;
                    response = kind response;
                  })
          ]
        ]
      ]

  -- `Policy::block_answer`, for a query of the name `qname`.
  unfoldable pub block_answer : (Bytes → Option Bytes) → Policy → N → N → Blocking N
  block_answer from_utf8 policy qname name = elim (query (labels name)) [
    | none ↦ panic
    | some key ↦ elim (block_match policy.index key policy.responses.local_slots) [
      | finished none ↦ not_blocked
      | finished (some found) ↦ trace_match from_utf8 policy qname name key found
      | panicked ↦ panic
      | spent ↦ panic
    ]
  ]

-- The `Option` that `block_answer` returns, a panic included.
abbrev pub answered : {N : Type 0} → Blocking N → Option (Blocking N)
answered not_blocked = none
answered (blocked_by answer trace) = some (blocked_by answer trace)
answered panic = some panic
