-- ===== src/Policy/Traced.antt =====
-- policy.rs, `Policy::apply_response`: a response is screened by the rules that cover its names.
use pari_ns.Prelude.{ℕ, ◌≡◌, ◌≢◌, ◌<◌, refl, subst, Option, none, some, some_eq, List, All}
use pari_ns.Policy.Key.{Bytes, query}
use pari_ns.Policy.Radix.Verdict.{covering}
use pari_ns.Policy.Explain.{Policy, blocked}
use pari_ns.Policy.Covered.{IsPolicy}
use pari_ns.Policy.Outcome.{decide}
use pari_ns.Policy.Trace.{
  BlockTrace, BlockAnswer, Blocking, blocked_by, panic, block_answer, answered,
}
use pari_ns.Policy.Blocked.{Blocks, Refuses, Traces, free, traced, stopped, block_answer-Traces}
use pari_ns.Policy.Chain.{Answer, Screened, replaced, passed, apply_response}
use pari_ns.Policy.Chain.Reached.{Reach, Screens, blocks, clears, apply_response-Screens}

module _ {N : Type 0} (dec : Discrete N) (labels : N → List Bytes) (from_ascii : Bytes → Option N)
    (from_utf8 : Bytes → Option Bytes)
    (ascii : (l : Bytes) → All (λ b. b < 128) l → from_utf8 l ≡ some l) (policy : Policy)
    (v : IsPolicy policy) (key : N → Bytes) (has_key : (n : N) → query (labels n) ≡ some (key n))
    (cls : ℕ) (answers : List (Answer N)) (question : N) where
  abbrev pub screen : N → Option (Blocking N)
  screen n = answered (block_answer dec labels from_ascii from_utf8 policy question n)

  -- The answer gives way to that of a name that the links lead to and that the rules block, or no
  -- name to which they lead is blocked. It is a panic only where the question's own name is blocked
  -- and the library refuses the text of its rule.
  pub data Censors : Screened (Blocking N) → Type 0 where
    by_rule :
        (n : N) (answer : BlockAnswer N) (trace : BlockTrace)
        → Reach dec cls answers question n
        → decide (covering policy.index (key n)) ≡ blocked
        → Blocks dec labels from_ascii policy question n (key n) answer trace
        → Censors (replaced (blocked_by answer trace))
    by_refusal :
        decide (covering policy.index (key question)) ≡ blocked
        → Refuses dec labels from_ascii policy question question (key question)
        → Censors (replaced panic)
    by_none :
        ((n : N)
          → Reach dec cls answers question n
          → decide (covering policy.index (key n)) ≢ blocked)
        → Censors passed

  abbrev TracesOf : N → Blocking N → Type 0
  TracesOf n = Traces dec labels from_ascii policy question n (key n)

  refusal :
      (n : N)
      → n ≡ question
      → decide (covering policy.index (key n)) ≡ blocked
      → Refuses dec labels from_ascii policy question n (key n)
      → Censors (replaced panic)
  refusal n same decided r =
      by_refusal (subst (λ n. decide (covering policy.index (key n)) ≡ blocked) same decided)
        (subst (λ n. Refuses dec labels from_ascii policy question n (key n)) same r)

  reached_block :
      (n : N) (answer b : Blocking N)
      → Reach dec cls answers question n
      → TracesOf n b
      → answered b ≡ some answer
      → Censors (replaced answer)
  reached_block n answer b r (free not_so) e = cc
  reached_block n answer b r (traced a trace decided w) e =
      subst (λ a. Censors (replaced a)) (some_eq e) (by_rule n a trace r decided w)
  reached_block n answer b r (stopped decided refuses) e =
      subst (λ a. Censors (replaced a)) (some_eq e) (refusal n refuses.is_question decided refuses)

  none_block :
      (n : N) (b : Blocking N)
      → TracesOf n b
      → answered b ≡ none
      → decide (covering policy.index (key n)) ≢ blocked
  none_block n b (free not_so) e = not_so
  none_block n b (traced a trace decided w) e = cc
  none_block n b (stopped decided refuses) e = cc

  traces : (n : N) → TracesOf n (block_answer dec labels from_ascii from_utf8 policy question n)
  traces n =
      block_answer-Traces dec labels from_ascii policy question from_utf8 ascii v n (key n)
        (has_key n)

  screened_by : (s : Screened (Blocking N)) → Screens dec screen cls answers question s → Censors s
  screened_by s (blocks n answer r e) = reached_block n answer _ r (traces n) e
  screened_by s (clears h) = by_none (λ n r. none_block n _ (traces n) (h n r))

  no_block :
      (n : N) (b : Blocking N)
      → TracesOf n b
      → decide (covering policy.index (key n)) ≢ blocked
      → answered b ≡ none
  no_block n b (free not_so) h = refl
  no_block n b (traced a trace decided w) h = absurd (h decided)
  no_block n b (stopped decided refuses) h = absurd (h decided)

  -- With a well-formed index of which every stored rule is the key of a rule's text and has its
  -- source, a decoding of text that takes ASCII as it is, names that all have a key, and no name
  -- blocked where there are no rules: a response is replaced exactly where the CNAME records of the
  -- question's class lead from its name to one that the covering rules block: by the block answer of
  -- such a name, whose rule is one of least rank among the block rules that cover that name, its
  -- labels the last ones of the name, with the source and the method of its slot. The answer's owner
  -- is the rule's text as a name where that name is the question's, and else the question's name. No
  -- fuel runs out, and the only panic is that the library refuses as a name the text of the rule
  -- that blocks the question's own name.
  pub apply_response-Censors :
      (index_rules : ℕ)
      → (index_rules ≡ 0 → (n : N) → decide (covering policy.index (key n)) ≢ blocked)
      → Censors (apply_response dec screen cls answers index_rules question)
  apply_response-Censors index_rules no_rules = screened_by _ (
      apply_response-Screens dec screen cls answers question index_rules
        (λ e n. no_block n _ (traces n) (no_rules e n)))
