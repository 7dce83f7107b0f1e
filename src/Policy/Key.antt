-- ===== src/Policy/Key.antt =====
-- policy/canonical.rs, `Key`: a domain name as bytes, the last label first, each with its length
-- before it. A text is its list of bytes.
use pari_ns.Prelude.{
  ℕ, ◌+◌, ◌%◌, Bool, true, false, not, ◌&&◌, ◌||◌, Option, none, some, List, [], ◌∷◌, ◌++◌, map,
  ltb, leb, ◌==◌, if◌then◌else◌, length,
}
use pari_ns.Prelude.Bytes.{reverse}

abbrev pub Bytes : Type 0
Bytes = List ℕ

-- `to_ascii_lowercase`.
unfoldable pub lower : ℕ → ℕ
lower b = if leb 65 b && leb b 90 then b + 32 else b

-- `Key::push`; the array has 255 bytes, and none is a write past it.
unfoldable pub push : Bytes → Bytes → Option Bytes
push label key =
    if ltb 255 (length key + 1 + length label)
    then none
    else some (key ++ (length label % 256) ∷ map lower label)

unfoldable pub push_all : List Bytes → Bytes → Option Bytes
push_all [] key = some key
push_all (label ∷ labels) key = elim (push label key) [
  | none ↦ none
  | some key' ↦ push_all labels key'
]

-- `Key::query`, for a name as its labels.
unfoldable pub query : List Bytes → Option Bytes
query name = push_all (reverse name) []

abbrev pub dot : ℕ
dot = 46

abbrev is_alphanumeric : ℕ → Bool
is_alphanumeric b = leb 48 b && leb b 57 || leb 65 b && leb b 90 || leb 97 b && leb b 122

-- A letter, a digit, a hyphen or an underscore.
unfoldable pub are_valid : Bytes → Bool
are_valid [] = true
are_valid (b ∷ bs) = (is_alphanumeric b || b == 45 || b == 95) && are_valid bs

abbrev pub is_empty : Bytes → Bool
is_empty [] = true
is_empty (b ∷ bs) = false

-- `strip_suffix('.')`.
unfoldable pub strip_dot : Bytes → Bytes
strip_dot [] = []
strip_dot (b ∷ []) = if b == dot then [] else b ∷ []
strip_dot (b ∷ c ∷ bs) = b ∷ strip_dot (c ∷ bs)

abbrev pub push_head : ℕ → List Bytes → List Bytes
push_head c [] = (c ∷ []) ∷ []
push_head c (l ∷ ls) = (c ∷ l) ∷ ls

-- The labels between the dots.
unfoldable pub split : Bytes → List Bytes
split [] = [] ∷ []
split (c ∷ cs) = let rest = split cs in if c == dot then [] ∷ rest else push_head c rest

pub data Ruled : Type 0 where
  rule_key : Bytes → Ruled
  invalid_domain : Ruled
  panic : Ruled

abbrev pub is_label : Bytes → Bool
is_label l = not (is_empty l || ltb 63 (length l) || not (are_valid l))

unfoldable pub rule_labels : List Bytes → Bytes → Ruled
rule_labels [] key = rule_key key
rule_labels (l ∷ ls) key = elim (is_label l) [
  | false ↦ invalid_domain
  | true ↦ elim (push l key) [ none ↦ panic | some key' ↦ rule_labels ls key' ]
]

-- `Key::rule`.
unfoldable pub rule : Bytes → Ruled
rule text =
    let t = strip_dot text in
    if is_empty t || ltb 253 (length t) then invalid_domain else rule_labels (reverse (split t)) []
