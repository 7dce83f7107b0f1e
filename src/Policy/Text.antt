-- ===== src/Policy/Text.antt =====
-- policy/radix.rs, `Index::rule`: the text of a matched rule, from the key of the query.
use pari_ns.Prelude.{
  ℕ, zero, suc, true, false, Option, none, some, List, [], ◌∷◌, ◌++◌, leb, if◌then◌else◌, length,
}
use pari_ns.Prelude.Bytes.{reverse, take, drop}
use pari_ns.Policy.Key.{Bytes, is_empty, dot}

-- A key's labels; the array has 127, and none is a slice or a write out of range.
unfoldable pub key_labels : ℕ → Bytes → Option (List Bytes)
key_labels n [] = some []
key_labels zero (len ∷ rest) = none
key_labels (suc n) (len ∷ rest) = elim (leb len (length rest)) [
  | false ↦ none
  | true ↦ elim (key_labels n (drop len rest)) [
    | none ↦ none
    | some labels ↦ some (take len rest ∷ labels)
  ]
]

-- The rest of the text after a label: `String::from_utf8` of a label is a parameter, and none is
-- its refusal.
unfoldable pub push_label : (Bytes → Option Bytes) → Bytes → Bytes → Option Bytes
push_label from_utf8 result label =
    let dotted = if is_empty result then result else result ++ dot ∷ [] in
    elim (from_utf8 label) [ none ↦ none | some text ↦ some (dotted ++ text) ]

unfoldable pub push_labels : (Bytes → Option Bytes) → Bytes → List Bytes → Option Bytes
push_labels from_utf8 result [] = some result
push_labels from_utf8 result (label ∷ labels) = elim (push_label from_utf8 result label) [
  | none ↦ none
  | some result' ↦ push_labels from_utf8 result' labels
]

-- `Index::rule`, for the key of a query and the length of the matched key.
unfoldable pub rule_text : (Bytes → Option Bytes) → Bytes → ℕ → Option Bytes
rule_text from_utf8 key matched_key_len =
    if leb matched_key_len (length key)
    then elim (key_labels 127 (take matched_key_len key)) [
      | none ↦ none
      | some labels ↦ push_labels from_utf8 [] (reverse labels)
    ]
    else none
