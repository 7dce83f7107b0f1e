-- ===== src/Tests/Screen.antt =====
-- A response for the name `A.B`, which is allowed and leads to `X.b`, which is blocked.
use pari_ns.Prelude.{◌≡◌, refl, Bool, true, false, Option, none, some, List, [], ◌∷◌, arith}
use pari_ns.Policy.Key.{Bytes, query, rule, rule_key}
use pari_ns.Policy.Responses.{nxdomain, response_of}
use pari_ns.Policy.Trace.{blocked_by, panic, owner_of, trace_match, block_answer}
use pari_ns.Policy.Chain.{Answer, apply_response}
use pari_ns.Policy.Traced
use pari_ns.Policy.Traced.{screen, Censors}
use pari_ns.Tests.Policy.{policy, policy-IsPolicy, name_x_b, key_x_b, key_a_b, program}

Bool-discrete : Discrete Bool
Bool-discrete = hlevel

abbrev labels : Bool → List Bytes
labels true = (65 ∷ []) ∷ (66 ∷ []) ∷ []
labels false = name_x_b

abbrev key : Bool → Bytes
key true = key_a_b
key false = key_x_b

-- Every text is the name `X.b`.
abbrev from_ascii : Bytes → Option Bool
from_ascii text = some false

has_key : (n : Bool) → query (labels n) ≡ some (key n)
unfolding program
has_key true = refl
has_key false = refl

abbrev answers : List (Answer Bool)
answers = record { name = true; dns_class = 1; cname = some false } ∷ []

apply_response-Censors_example :
    Censors Bool-discrete labels from_ascii
      (λ l. some l)
      (λ l h. refl)
      policy
      policy-IsPolicy
      key
      has_key
      1
      answers
      true
      (apply_response Bool-discrete
        (screen Bool-discrete labels from_ascii
          (λ l. some l)
          (λ l h. refl)
          policy
          policy-IsPolicy
          key
          has_key
          1
          answers
          true)
        1
        answers
        2
        true)
apply_response-Censors_example =
    Traced.apply_response-Censors Bool-discrete labels from_ascii (λ l. some l) (λ l h. refl) policy
      policy-IsPolicy key has_key 1 answers true 2 (λ e. absurd (omega arith))

-- The rule `b` blocks the name `X.b` of a query, and its answer has the owner that the text gives.
answer_x_b :
    block_answer Bool-discrete labels from_ascii (λ l. some l) policy false false
    ≡ blocked_by
        (record { response = nxdomain; owner = false; ttl = 10 })
        (record { rule = 98 ∷ []; source_id = none; response = "nxdomain" })
unfolding program Bool-discrete owner_of trace_match block_answer response_of
answer_x_b = refl

-- A library that refuses the text panics the answer.
panic_x_b :
    block_answer Bool-discrete labels (λ text. none) (λ l. some l) policy false false ≡ panic
unfolding program Bool-discrete owner_of trace_match block_answer response_of
panic_x_b = refl

-- The text `-a` is a rule.
rule_hyphen : rule (45 ∷ 97 ∷ []) ≡ rule_key (2 ∷ 45 ∷ 97 ∷ [])
unfolding program
rule_hyphen = refl
