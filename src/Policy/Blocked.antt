-- ===== src/Policy/Blocked.antt =====
-- policy.rs, `Policy::block_answer`: a name is blocked as the covering rules decide.
use pari_ns.Prelude.{
  ℕ, ◌≡◌, ◌≢◌, ◌<◌, refl, ◌∙◌, ap, true, false, Option, none, some, List, [], ◌∷◌, ◌++◌, arith, All,
  map, Bool-cases, Option-cases, ◌⊎◌, inl, inr, if◌then◌else◌,
}
use pari_ns.Policy.Key.{Bytes, query, lower, strip_dot, dot}
use pari_ns.Policy.Radix.{Match, finished}
use pari_ns.Policy.Radix.Path.{Stop}
use pari_ns.Policy.Radix.Verdict.{covering, is_allowed, candidates, least}
use pari_ns.Policy.Radix.Walks.{nth-some}
use pari_ns.Policy.Radix.Block.{block_match-least, IsChosen}
use pari_ns.Policy.Responses.{kind, response_of}
use pari_ns.Policy.Explain.{Policy, blocked}
use pari_ns.Policy.Covered.{IsPolicy, IsRule}
use pari_ns.Policy.Outcome.{decide}
use pari_ns.Policy.Explained.{Names, best_block, candidate-IsRule, printed_lem, rule-Names}
use pari_ns.Policy.Trace.{
  BlockTrace, BlockAnswer, Blocking, not_blocked, blocked_by, panic, owner_of, trace_match,
  block_answer,
}

List-cases : {A : Type 0} (xs : List A) → (xs ≡ []) ⊎ ((y : A) × (ys : List A) × (xs ≡ y ∷ ys))
List-cases [] = inl refl
List-cases (y ∷ ys) = inr (y, ys, refl)

least_nil : (slots : ℕ) → least slots none [] ≡ none
unfolding least
least_nil slots = refl

not_decided_allowed : (stops : List Stop) → is_allowed stops ≡ true → decide stops ≢ blocked
unfolding decide
not_decided_allowed stops h = rw h (λ e. cc)

not_decided_empty :
    (stops : List Stop) → is_allowed stops ≡ false → candidates stops ≡ [] → decide stops ≢ blocked
unfolding decide
not_decided_empty stops h k = rw (h, k) (λ e. cc)

decided_blocked :
    (stops : List Stop) (x : Match) (xs : List Match)
    → is_allowed stops ≡ false
    → candidates stops ≡ x ∷ xs
    → decide stops ≡ blocked
unfolding decide
decided_blocked stops x xs h k = rw (h, k) refl

module _ {N : Type 0} (dec : Discrete N) (labels : N → List Bytes) (from_ascii : Bytes → Option N)
    (policy : Policy) (question : N) where
  -- The block answer and the trace for a name with this key: a match of least rank among the covering
  -- block rules, the text and the source of its rule, and the method of its slot. The owner is the
  -- rule's text as a name where the question's own name is blocked, and elsewhere that name.
  pub record Blocks (name : N) (key : Bytes) (answer : BlockAnswer N) (trace : BlockTrace)
      : Type 0 where
    pub m : Match
    pub chosen : IsChosen policy.responses.local_slots m (candidates (covering policy.index key))
    pub names : Names policy (labels name) key m trace.rule trace.source_id
    pub response : answer.response ≡ response_of policy.responses m.source_slot
    pub method : trace.response ≡ kind answer.response
    pub ttl : answer.ttl ≡ policy.responses.ttl
    pub owner :
        ((name ≡ question) × (from_ascii (trace.rule ++ dot ∷ []) ≡ some answer.owner))
        ⊎ ((name ≢ question) × (answer.owner ≡ question))

  -- The library refuses as a name the text of the block rule of least rank that covers the
  -- question's own name.
  pub record Refuses (name : N) (key : Bytes) : Type 0 where
    pub m : Match
    pub printed : Bytes
    pub source_id : Option Bytes
    pub chosen : IsChosen policy.responses.local_slots m (candidates (covering policy.index key))
    pub names : Names policy (labels name) key m printed source_id
    pub is_question : name ≡ question
    pub is_refused : from_ascii (printed ++ dot ∷ []) ≡ none

  -- A name is blocked by a rule that covers it exactly where the covering rules say so, or the
  -- library refuses that rule's text as a name.
  pub data Traces (name : N) (key : Bytes) : Blocking N → Type 0 where
    free : decide (covering policy.index key) ≢ blocked → Traces name key not_blocked
    traced :
        (answer : BlockAnswer N) (trace : BlockTrace)
        → decide (covering policy.index key) ≡ blocked
        → Blocks name key answer trace
        → Traces name key (blocked_by answer trace)
    stopped :
        decide (covering policy.index key) ≡ blocked → Refuses name key → Traces name key panic

  owner_same :
      (name : N) (printed : Bytes)
      → name ≡ question
      → owner_of dec labels from_ascii question name printed ≡ from_ascii (printed ++ dot ∷ [])
  unfolding owner_of
  owner_same name printed same = elim (dec name question) [
    | yes e ↦ ground arith
    | no ne ↦ absurd (ne same)
  ]

  owner-cases :
      (name : N) (printed : Bytes)
      → ((o : N) × (owner_of dec labels from_ascii question name printed ≡ some o)
          × (((name ≡ question) × (from_ascii (printed ++ dot ∷ []) ≡ some o))
              ⊎ ((name ≢ question) × (o ≡ question))))
        ⊎ ((owner_of dec labels from_ascii question name printed ≡ none)
            × (name ≡ question)
            × (from_ascii (printed ++ dot ∷ []) ≡ none))
  unfolding owner_of
  owner-cases name printed = elim (dec name question) [
    | no ne ↦ inl (question, ground arith, inr (ne, refl))
    | yes e ↦ elim (Option-cases (from_ascii (printed ++ dot ∷ []))) [
      | inl refuses ↦ inr (owner_same name printed e ∙ refuses, e, refuses)
      | inr (o, accepts) ↦ inl (o, owner_same name printed e ∙ accepts, inl (e, accepts))
    ]
  ]

  module _ (from_utf8 : Bytes → Option Bytes)
      (ascii : (l : Bytes) → All (λ b. b < 128) l → from_utf8 l ≡ some l) (v : IsPolicy policy)
      (name : N) (key : Bytes) (has_key : query (labels name) ≡ some key) where
    abbrev stops : List Stop
    stops = covering policy.index key

    match-Traces :
        (m : Match)
        → IsRule policy key m
        → decide stops ≡ blocked
        → IsChosen policy.responses.local_slots m (candidates stops)
        → Traces name key (trace_match dec labels from_ascii from_utf8 policy question name key m)
    unfolding trace_match
    match-Traces m r decided chosen =
        let (id, source) = nth-some m.source_slot policy.source_ids r.sourced in
        let printed = printed_lem from_utf8 ascii policy v (labels name) key has_key m r in
        let names = rule-Names from_utf8 ascii policy v (labels name) key has_key m r id source in
        elim (owner-cases name (map lower (strip_dot r.text))) [
          | inl (o, is_owner, owner) ↦
              rw (printed, trace_match)
                (rw (is_owner, trace_match)
                  (rw (source, trace_match)
                    (traced _ _ decided (record {
                      m = m;
                      chosen = chosen;
                      names = names;
                      response = refl;
                      method = refl;
                      ttl = refl;
                      owner = owner;
                    }))))
          | inr (no_owner, same, refuses) ↦
              rw (printed, trace_match)
                (rw (no_owner, trace_match)
                  (stopped decided (record {
                    m = m;
                    printed = _;
                    source_id = _;
                    chosen = chosen;
                    names = names;
                    is_question = same;
                    is_refused = refuses;
                  })))
        ]

    none_found :
        (if is_allowed stops
            then none
            else least policy.responses.local_slots none (candidates stops))
          ≡ none
        → block_answer dec labels from_ascii from_utf8 policy question name ≡ not_blocked
    unfolding block_answer
    none_found h =
        rw (has_key, block_answer)
          (rw
            (
              block_match-least policy.index v.indexed key policy.responses.local_slots
                  ∙ ap finished h,
              block_answer,
            )
            refl)

    pub block_answer-Traces :
        Traces name key (block_answer dec labels from_ascii from_utf8 policy question name)
    unfolding block_answer
    block_answer-Traces = elim (Bool-cases (is_allowed stops)) [
      | inl allows ↦ rw (none_found (rw allows refl)) (free (not_decided_allowed stops allows))
      | inr free_of ↦ elim (List-cases (candidates stops)) [
        | inl empty ↦
            rw (none_found (rw (free_of, empty) (least_nil policy.responses.local_slots)))
              (free (not_decided_empty stops free_of empty))
        | inr (x, xs, full) ↦
            let (best, is_best, chosen) =
              best_block from_utf8 ascii policy v (labels name) key has_key x xs free_of full in
            let rule =
              candidate-IsRule from_utf8 ascii policy v (labels name) key has_key best
                chosen.member in
            rw (has_key, block_answer)
              (rw (is_best, block_answer)
                (match-Traces best rule (decided_blocked stops x xs free_of full) chosen))
      ]
    ]
