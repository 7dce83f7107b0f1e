-- ===== src/Policy/Rules.antt =====
-- policy/canonical.rs, `Key`: the key of a rule's text and of a query's name.
use pari_ns.Prelude.{
  ℕ, ◌+◌, ◌%◌, ◌≤◌, ◌<◌, ◌≡◌, ◌≢◌, refl, ◌∙◌, ap, true, some, List, [], ◌∷◌, ◌++◌, map, length,
  length-append, All, Bool-cases, Option-cases, arith, inl, inr,
}
use mathlib.Core.List.{append_assoc, append-nil}
use pari_ns.Prelude.Bytes.{reverse, starts_with}
use pari_ns.Policy.Key.{
  Bytes, lower, push, push_all, query, strip_dot, push_head, split, rule_key, panic, is_label,
  rule_labels, rule,
}
use pari_ns.Policy.Labels.{encode, starts_labels, length-map, IsShort, starts_with-encode}

push-eq_some :
    (l key : Bytes) {key' : Bytes}
    → push l key ≡ some key'
    → (key' ≡ key ++ (length l % 256) ∷ map lower l) × IsShort l
unfolding push
push-eq_some l key h = ground arith

push_fits :
    (l key : Bytes)
    → length key + 1 + length l ≤ 255
    → push l key ≡ some (key ++ (length l % 256) ∷ map lower l)
unfolding push
push_fits l key h = ground arith

-- A key with the key of one more label, and then those of the others.
encode_step :
    (l : Bytes) (ls : List Bytes) (key : Bytes)
    → (key ++ (length l % 256) ∷ map lower l) ++ encode ls ≡ key ++ encode (l ∷ ls)
unfolding encode
encode_step l ls key = append_assoc key ((length l % 256) ∷ map lower l) (encode ls)

push_all-eq_some :
    (ls : List Bytes) (key out : Bytes)
    → push_all ls key ≡ some out
    → (out ≡ key ++ encode ls) × All IsShort ls
unfolding push_all encode
push_all-eq_some [] key out h = (cc (append-nil key), omega arith)
push_all-eq_some (l ∷ ls) key out h = elim (Option-cases (push l key)) [
  | inl e ↦ absurd (ground arith)
  | inr (key', e) ↦
      let (eq, short) = push-eq_some l key e in
      let (whole, shorts) = push_all-eq_some ls key' out (ground arith) in
      (cc (encode_step l ls key), (short, shorts))
]

-- `IsLabel l`: the label is one that a rule may have.
abbrev pub IsLabel : Bytes → Type 0
IsLabel l = is_label l ≡ true

label-IsShort : (l : Bytes) → IsLabel l → IsShort l
label-IsShort l h = ground arith

labels-IsShort : (ls : List Bytes) → All IsLabel ls → All IsShort ls
labels-IsShort [] h = h
labels-IsShort (l ∷ ls) h = (label-IsShort l h.0, labels-IsShort ls h.1)

rule_labels-eq_key :
    (ls : List Bytes) (key out : Bytes)
    → rule_labels ls key ≡ rule_key out
    → (out ≡ key ++ encode ls) × All IsLabel ls
unfolding rule_labels encode
rule_labels-eq_key [] key out h = (cc (append-nil key), omega arith)
rule_labels-eq_key (l ∷ ls) key out h = elim (Bool-cases (is_label l)) [
  | inr e ↦ absurd (ground arith)
  | inl e ↦ elim (Option-cases (push l key)) [
    | inl full ↦ absurd (ground arith)
    | inr (key', fits) ↦
        let (eq, short) = push-eq_some l key fits in
        let (whole, labels) = rule_labels-eq_key ls key' out (ground arith) in
        (cc (encode_step l ls key), (e, labels))
  ]
]

room :
    (l : Bytes) (ls : List Bytes) (key : Bytes)
    → length key + length (encode (l ∷ ls)) ≤ 255
    → (length key + 1 + length l ≤ 255)
      × (length (key ++ (length l % 256) ∷ map lower l) + length (encode ls) ≤ 255)
unfolding encode
room l ls key h = omega (
  arith,
  length-append key ((length l % 256) ∷ map lower l),
  length-append (map lower l) (encode ls),
  length-map l,
)

push_head_pos : (c : ℕ) (ls : List Bytes) → 0 < length (push_head c ls)
push_head_pos c [] = omega arith
push_head_pos c (l ∷ ls) = omega arith

-- Labels that fit the array are never written past it.
rule_labels-ne-panic :
    (ls : List Bytes) (key : Bytes)
    → length key + length (encode ls) ≤ 255
    → rule_labels ls key ≢ panic
unfolding rule_labels encode
rule_labels-ne-panic [] key h = ground arith
rule_labels-ne-panic (l ∷ ls) key h = elim (Bool-cases (is_label l)) [
  | inr e ↦ ground arith
  | inl e ↦ ground (
    arith,
    push_fits l key (room l ls key h).0,
    rule_labels-ne-panic ls (key ++ (length l % 256) ∷ map lower l) (room l ls key h).1,
  )
]

length-encode_append :
    (ls ms : List Bytes) → length (encode (ls ++ ms)) ≡ length (encode ls) + length (encode ms)
unfolding encode
length-encode_append [] ms = omega arith
length-encode_append (l ∷ ls) ms = omega (
  arith,
  length-append (map lower l) (encode (ls ++ ms)),
  length-append (map lower l) (encode ls),
  length-encode_append ls ms,
)

length-encode-reverse : (ls : List Bytes) → length (encode (reverse ls)) ≡ length (encode ls)
unfolding encode reverse
length-encode-reverse [] = refl
length-encode-reverse (l ∷ ls) = omega (
  arith,
  length-append (map lower l) (encode ls),
  length-append (map lower l) [],
  length-encode_append (reverse ls) (l ∷ []),
  length-encode-reverse ls,
)

length-encode_head :
    (c : ℕ) (ls : List Bytes)
    → 0 < length ls
    → length (encode (push_head c ls)) ≡ length (encode ls) + 1
unfolding encode
length-encode_head c [] h = absurd (omega arith)
length-encode_head c (l ∷ ls) h =
    omega (
      arith,
      length-append (map lower l) (encode ls),
      length-append (map lower (c ∷ l)) (encode ls),
    )

pub split_pos : (t : Bytes) → 0 < length (split t)
unfolding split
split_pos [] = omega arith
split_pos (c ∷ cs) = ground (arith, push_head_pos c (split cs))

-- A text takes one byte more as a key.
length-encode-split : (t : Bytes) → length (encode (split t)) ≡ length t + 1
unfolding split encode
length-encode-split [] = refl
length-encode-split (c ∷ cs) =
    ground (arith, length-encode_head c (split cs) (split_pos cs), length-encode-split cs)

length-encode-labels : (t : Bytes) → length (encode (reverse (split t))) ≡ length t + 1
length-encode-labels t = length-encode-reverse (split t) ∙ length-encode-split t

-- No text of a rule is written past the array of its key.
pub rule-ne-panic : (text : Bytes) → rule text ≢ panic
unfolding rule
rule-ne-panic text = ground (
  arith,
  rule_labels-ne-panic (reverse (split (strip_dot text))) [],
  length-encode-labels (strip_dot text),
)

-- The labels of a rule's text, the last one first.
unfoldable pub rule_names : Bytes → List Bytes
rule_names text = reverse (split (strip_dot text))

rule_accepts :
    (text : Bytes) {k : Bytes}
    → rule text ≡ rule_key k
    → (rule_labels (rule_names text) [] ≡ rule_key k) × (length (strip_dot text) ≤ 253)
unfolding rule rule_names
rule_accepts text h = ground arith

pub rule-eq_key :
    (text : Bytes) {k : Bytes}
    → rule text ≡ rule_key k
    → (k ≡ encode (rule_names text)) × All IsLabel (rule_names text) × (length k ≤ 254)
unfolding rule_names
rule-eq_key text h =
    let (labelled, short) = rule_accepts text h in
    let (eq, labels) = rule_labels-eq_key (rule_names text) [] _ labelled in
    (eq, labels, omega (arith, short, ap length eq, length-encode-labels (strip_dot text)))

pub query-eq_some :
    (name : List Bytes) {q : Bytes}
    → query name ≡ some q
    → (q ≡ encode (reverse name)) × All IsShort (reverse name)
unfolding query
query-eq_some name h = push_all-eq_some (reverse name) [] _ h

-- Where a rule's text has a key and a name has one, the name's key begins with the rule's exactly
-- where the rule's labels are the last labels of the name, but for the case of letters.
pub rule-query :
    (text : Bytes) (name : List Bytes) {k q : Bytes}
    → rule text ≡ rule_key k
    → query name ≡ some q
    → starts_with q k ≡ starts_labels (reverse name) (rule_names text)
rule-query text name h e =
    let (rule_is, labels, short) = rule-eq_key text h in
    let (query_is, shorts) = query-eq_some name e in
    rw (rule_is, query_is)
      (starts_with-encode (reverse name) (rule_names text) shorts (labels-IsShort _ labels))
