-- ===== src/Policy/Explained.antt =====
-- policy.rs: an explanation is always given, and its decision is that of the covering rules.
use pari_ns.Prelude.{
  ℕ, ◌<◌, ◌≡◌, refl, sym, ◌∙◌, ap, true, false, Option, none, some, some_eq, List, ◌∷◌,
  if◌then◌else◌, All, Option-cases, ◌⊎◌, inl, inr, map, subst,
}
use pari_ns.Prelude.Bytes.{nth, reverse}
use pari_ns.Policy.Key.{Bytes, is_empty, query, lower, strip_dot}
use pari_ns.Policy.Radix.{Group, Match, finished, lookup, block_match}
use pari_ns.Policy.Radix.Path.{Stop}
use pari_ns.Policy.Radix.Rank.{IsOneOf}
use pari_ns.Policy.Radix.Verdict.{
  covering, match_at, whole_at, first, verdict, is_allowed, is_some, candidates, with_match, least,
}
use pari_ns.Policy.Radix.Verdict as Verdict
use pari_ns.Policy.Radix.Lookup.{lookup-verdict}
use pari_ns.Policy.Radix.Block.{block_match-least, IsChosen, least-none}
use pari_ns.Policy.Radix.Members.{first-Good, exact-Good, candidates-Good, one-Good}
use pari_ns.Policy.Labels.{starts_labels}
use pari_ns.Policy.Rules.{rule_names, rule-query}
use pari_ns.Policy.Radix.Walks.{nth-some}
use pari_ns.Policy.Text.{rule_text}
use pari_ns.Policy.Printing.{rule_text-rule}
use pari_ns.Policy.Explain.{
  Policy, Decision, allowed, blocked, unmatched, Explanation, explained, is_block, explain_match,
  explain_found, explain, Witness, scope_of,
}
use pari_ns.Policy.Covered.{IsPolicy, IsRule, covering-IsRule}
use pari_ns.Policy.Outcome.{
  decide, candidates-block, decide_allowed, decide_blocked, by_allow, by_none, by_block, outcome,
}

-- What a rule is named by, for a match: the match is that of a rule the index stores, the text is
-- the rule's in lower case, its labels are the last ones of the name, and the source is that of the
-- match's slot, or none for a local rule.
pub record Names (policy : Policy) (name : List Bytes) (key : Bytes) (m : Match) (printed : Bytes)
    (source_id : Option Bytes) : Type 0 where
  pub is_rule : IsRule policy key m
  pub is_text : printed ≡ map lower (strip_dot is_rule.text)
  pub is_suffix : starts_labels (reverse name) (rule_names is_rule.text) ≡ true
  pub id : Bytes
  pub source : nth m.source_slot policy.source_ids ≡ some id
  pub is_source : source_id ≡ (if is_empty id then none else some id)

-- The match that decides: the one that allows by the verdict, or else, with no allowance, the one of
-- least rank among the block rules.
pub data Decides (slots : ℕ) (stops : List Stop) (m : Match) : Type 0 where
  allows : verdict stops ≡ some m → is_block m.group ≡ false → Decides slots stops m
  blocks : is_allowed stops ≡ false → IsChosen slots m (candidates stops) → Decides slots stops m

-- An explanation: nothing is named where no rule covers the name, and elsewhere the rule that
-- decides is, with its scope.
pub data Explains (policy : Policy) (name : List Bytes) (key : Bytes) : Explanation → Type 0 where
  unnamed :
      decide (covering policy.index key) ≡ unmatched
      → Explains policy name key (record { decision = unmatched; witness = none })
  names_rule :
      (m : Match) (w : Witness) (decision : Decision)
      → decision ≡ decide (covering policy.index key)
      → decision ≡ (if is_block m.group then blocked else allowed)
      → Decides policy.responses.local_slots (covering policy.index key) m
      → Names policy name key m w.rule w.source_id
      → w.scope ≡ scope_of m.group
      → Explains policy name key (record { decision = decision; witness = some w })

abbrev explanation_by : Match → Bytes → Bytes → Explanation
explanation_by m id text = record {
  decision = if is_block m.group then blocked else allowed;
  witness = some (record {
    source_id = if is_empty id then none else some id;
    rule = text;
    scope = scope_of m.group;
  });
}

explain_match_lem :
    (from_utf8 : Bytes → Option Bytes) (policy : Policy) (key : Bytes) (m : Match) {id text : Bytes}
    → nth m.source_slot policy.source_ids ≡ some id
    → rule_text from_utf8 key m.matched_key_len ≡ some text
    → explain_match from_utf8 policy key m ≡ explained (explanation_by m id text)
unfolding explain_match
explain_match_lem from_utf8 policy key m source printed =
    rw (source, explain_match) (rw (printed, explain_match) refl)

module _ (from_utf8 : Bytes → Option Bytes)
    (ascii : (l : Bytes) → All (λ b. b < 128) l → from_utf8 l ≡ some l) (policy : Policy)
    (v : IsPolicy policy) (name : List Bytes) (key : Bytes) (has_key : query name ≡ some key) where
  abbrev stops : List Stop
  stops = covering policy.index key

  found-IsRule :
      (g : Group) (m : Match)
      → (first g stops ≡ some m) ⊎ (Verdict.exact g stops ≡ some m)
      → IsRule policy key m
  found-IsRule g m (inl e) =
      first-Good (IsRule policy key) g stops m (covering-IsRule policy v name key has_key) e
  found-IsRule g m (inr e) =
      exact-Good (IsRule policy key) g stops m (covering-IsRule policy v name key has_key) e

  pub candidate-IsRule : (m : Match) → IsOneOf m (candidates stops) → IsRule policy key m
  candidate-IsRule m h =
      one-Good (IsRule policy key) m (candidates stops) h
        (candidates-Good (IsRule policy key) stops (covering-IsRule policy v name key has_key))

  pub rule-Names :
      (m : Match) (r : IsRule policy key m) (id : Bytes)
      → nth m.source_slot policy.source_ids ≡ some id
      → Names policy name key m
          (map lower (strip_dot r.text))
          (if is_empty id then none else some id)
  rule-Names m r id source = record {
    is_rule = r;
    is_text = refl;
    is_suffix = sym (rule-query r.text name r.has_key has_key) ∙ r.covers;
    id = id;
    source = source;
    is_source = refl;
  }

  pub printed_lem :
      (m : Match) (r : IsRule policy key m)
      → rule_text from_utf8 key m.matched_key_len ≡ some (map lower (strip_dot r.text))
  printed_lem m r =
      ap (rule_text from_utf8 key) r.length_lem
      ∙ rule_text-rule from_utf8 ascii r.text key r.matched r.has_key r.covers

  match-Explains :
      (m : Match)
      → IsRule policy key m
      → (if is_block m.group then blocked else allowed) ≡ decide stops
      → Decides policy.responses.local_slots stops m
      → (e : Explanation) × (explain_match from_utf8 policy key m ≡ explained e)
        × Explains policy name key e
  match-Explains m r decided decides =
      let (id, source) = nth-some m.source_slot policy.source_ids r.sourced in
      (
        explanation_by m id (map lower (strip_dot r.text)),
        explain_match_lem from_utf8 policy key m source (printed_lem m r),
        names_rule m _ _ decided refl decides (rule-Names m r id source) refl,
      )

  pub best_block :
      (x : Match) (xs : List Match)
      → is_allowed stops ≡ false
      → candidates stops ≡ x ∷ xs
      → (best : Match) × (block_match policy.index key policy.responses.local_slots
          ≡ finished (some best))
        × IsChosen policy.responses.local_slots best (candidates stops)
  best_block x xs free full = elim (least-none policy.responses.local_slots (candidates stops)) [
    | inl (empty, _) ↦ absurd (cc)
    | inr (best, is_best, chosen) ↦ (
      best,
      block_match-least policy.index v.indexed key policy.responses.local_slots
          ∙ ap finished (rw (free, is_best) refl),
      chosen,
    )
  ]

  found-Explains :
      (m : Match)
      → verdict stops ≡ some m
      → (e : Explanation) × (explain_found from_utf8 policy key m ≡ explained e)
        × Explains policy name key e
  unfolding explain_found
  found-Explains m is_m = elim (outcome stops) [
    | by_allow m' g allowing e is_allow from ↦
        let same : m' ≡ m = some_eq (sym e ∙ is_m) in
        let not_block : is_block m.group ≡ false =
          ap (λ (x : Match). is_block x.group) (sym same) ∙ is_allow in
        let (e, is_e, x) =
          match-Explains m
            (found-IsRule g m
              (subst (λ x. (first g stops ≡ some x) ⊎ (Verdict.exact g stops ≡ some x)) same from))
            (decide_allowed stops m.group allowing not_block) (allows is_m not_block) in
        (e, rw not_block is_e, x)
    | by_none free empty e ↦ absurd (cc)
    | by_block m' x xs free full e is_block' ↦
        let same : m' ≡ m = some_eq (sym e ∙ is_m) in
        let blocking : is_block m.group ≡ true =
          ap (λ (x : Match). is_block x.group) (sym same) ∙ is_block' in
        let (best, is_best, chosen) = best_block x xs free full in
        let blocks_too =
          one-Good (λ (m : Match). is_block m.group ≡ true) best (candidates stops) chosen.member
            (candidates-block stops) in
        let (e, is_e, w) =
          match-Explains best (candidate-IsRule best chosen.member)
            (decide_blocked stops best.group x xs free full blocks_too) (blocks free chosen) in
        (e, rw blocking (rw is_best is_e), w)
  ]

  lookup_is : lookup policy.index key ≡ finished (verdict stops)
  lookup_is = lookup-verdict policy.index v.indexed key

  decide_unmatched : verdict stops ≡ none → unmatched ≡ decide stops
  unfolding decide
  decide_unmatched nothing = elim (outcome stops) [
    | by_allow m g allowing e is_allow from ↦ absurd (cc)
    | by_none free empty e ↦ rw (free, empty) refl
    | by_block m x xs free full e is_block' ↦ absurd (cc)
  ]

  -- With a well-formed index of which every stored rule is the key of a rule's text and has its
  -- source, and a decoding of text that takes ASCII as it is: a policy explains its decision on
  -- every name with a key, without a panic. The decision is that of the stored rules that cover the
  -- name. Where there are none, no rule is named. Elsewhere a stored rule is named: the one that
  -- the verdict takes where the name is allowed, and where it is blocked one of least rank among
  -- the covering block rules. Its text is printed in lower case and has as labels the last labels of
  -- the name, and its source and its scope are those of its slot and its group.
  pub explain-Explains :
      (e : Explanation) × (explain from_utf8 policy name ≡ explained e) × Explains policy name key e
  unfolding explain
  explain-Explains = elim (Option-cases (verdict stops)) [
    | inr (m, is_m) ↦
        let (e, is_e, x) = found-Explains m is_m in
        (e, rw (has_key, explain) (rw (lookup_is ∙ ap finished is_m, explain) is_e), x)
    | inl nothing ↦ (
      record { decision = unmatched; witness = none },
      rw (has_key, explain) (rw (lookup_is ∙ ap finished nothing, explain) refl),
      unnamed (sym (decide_unmatched nothing)),
    )
  ]
