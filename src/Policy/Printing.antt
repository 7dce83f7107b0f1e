-- ===== src/Policy/Printing.antt =====
-- policy/radix.rs, `Index::rule`: the text that it prints is that of the rule.
use pari_ns.Prelude.{
  ℕ, zero, suc, ◌+◌, ◌%◌, ◌≤◌, ◌<◌, ◌≡◌, refl, sym, ◌∙◌, ap, true, false, Option, none, some, List,
  [], ◌∷◌, ◌++◌, map, leb, length, length-append, All, arith,
}
use mathlib.Core.List.{append_assoc, append-nil, map-append}
use pari_ns.Prelude.Bytes.{reverse, take, drop, starts_with}
use pari_ns.Policy.Key.{
  Bytes, lower, is_empty, dot, split, push_head, strip_dot, is_label, are_valid, rule_key, rule,
}
use pari_ns.Policy.Labels.{encode, length-map}
use pari_ns.Policy.Rules.{IsLabel, rule_names, rule-eq_key, split_pos}
use pari_ns.Policy.Text.{key_labels, push_label, push_labels, rule_text}

abbrev low : Bytes → Bytes
low l = map lower l

take-append : (u v : Bytes) → take (length u) (u ++ v) ≡ u
unfolding take
take-append [] v = refl
take-append (x ∷ u) v = ap (λ r. x ∷ r) (take-append u v)

drop-append : (u v : Bytes) → drop (length u) (u ++ v) ≡ v
unfolding drop
drop-append [] v = refl
drop-append (x ∷ u) v = drop-append u v

key_labels_nil : (n : ℕ) → key_labels n [] ≡ some []
unfolding key_labels
key_labels_nil n = refl

add_label : Bytes → Option (List Bytes) → Option (List Bytes)
add_label l none = none
add_label l (some ls) = some (l ∷ ls)

key_labels_fits :
    (n : ℕ) (u rest : Bytes)
    → leb (length u) (length rest) ≡ true
    → key_labels (suc n) (length u ∷ rest)
      ≡ add_label (take (length u) rest) (key_labels n (drop (length u) rest))
unfolding key_labels add_label
key_labels_fits n u rest h = ground arith

key_labels-cons :
    (n : ℕ) (u v : Bytes) → key_labels (suc n) (length u ∷ (u ++ v)) ≡ add_label u (key_labels n v)
key_labels-cons n u v =
    key_labels_fits n u (u ++ v) (ground (arith, length-append u v))
    ∙ ap (λ l. add_label l (key_labels n (drop (length u) (u ++ v)))) (take-append u v)
    ∙ ap (λ r. add_label u (key_labels n r)) (drop-append u v)

key_labels-encode :
    (n : ℕ) (ls : List Bytes)
    → length ls ≤ n
    → All IsLabel ls
    → key_labels n (encode ls) ≡ some (map low ls)
unfolding encode add_label
key_labels-encode n [] h k = key_labels_nil n
key_labels-encode zero (l ∷ ls) h k = absurd (omega arith)
key_labels-encode (suc n) (l ∷ ls) h (is_label, k) =
    let short : length l % 256 ≡ length (low l) = ground (arith, length-map l) in
    rw short (
      key_labels-cons n (low l) (encode ls)
      ∙ ap (add_label (low l)) (key_labels-encode n ls (omega arith) k))

-- The labels with a dot before each.
dotted : List Bytes → Bytes
dotted [] = []
dotted (l ∷ ls) = (dot ∷ l) ++ dotted ls

join : List Bytes → Bytes
unfolding dotted
join [] = []
join (l ∷ ls) = l ++ dotted ls

join_nil : join ([] ∷ []) ≡ []
unfolding join
join_nil = refl

join-head : (c : ℕ) (ls : List Bytes) → 0 < length ls → join (push_head c ls) ≡ c ∷ join ls
unfolding join
join-head c [] h = absurd (omega arith)
join-head c (l ∷ ls) h = refl

join_cons : (ls : List Bytes) → 0 < length ls → join ([] ∷ ls) ≡ dot ∷ join ls
unfolding join
join_cons [] h = absurd (omega arith)
join_cons (l ∷ ls) h = refl

join-split : (t : Bytes) → join (split t) ≡ t
unfolding split
join-split [] = join_nil
join-split (c ∷ cs) = ground (
  arith,
  join-head c (split cs) (split_pos cs),
  join-split cs,
  join_cons (split cs) (split_pos cs),
)

dotted-map : (ls : List Bytes) → dotted (map low ls) ≡ map lower (dotted ls)
unfolding dotted lower
dotted-map [] = refl
dotted-map (l ∷ ls) =
    ap (λ r. dot ∷ r) (ap (λ r. low l ++ r) (dotted-map ls) ∙ sym (map-append lower l (dotted ls)))

reverse-append : {A : Type 0} (xs ys : List A) → reverse (xs ++ ys) ≡ reverse ys ++ reverse xs
unfolding reverse
reverse-append [] ys = sym (append-nil (reverse ys))
reverse-append (x ∷ xs) ys =
    ap (λ r. r ++ x ∷ []) (reverse-append xs ys) ∙ append_assoc (reverse ys) (reverse xs) (x ∷ [])

reverse-map-reverse : (ls : List Bytes) → reverse (map low (reverse ls)) ≡ map low ls
unfolding reverse
reverse-map-reverse [] = refl
reverse-map-reverse (l ∷ ls) =
    ap reverse (map-append low (reverse ls) (l ∷ []))
    ∙ reverse-append (map low (reverse ls)) (low l ∷ [])
    ∙ ap (λ r. low l ∷ r) (reverse-map-reverse ls)

low_full : (l : Bytes) → is_empty l ≡ false → is_empty (low l) ≡ false
low_full [] h = h
low_full (b ∷ l) h = refl

valid_ascii : (l : Bytes) → are_valid l ≡ true → All (λ b. b < 128) (low l)
unfolding are_valid lower
valid_ascii [] h = tt
valid_ascii (b ∷ l) h = (ground arith, valid_ascii l (ground arith))

module _ (from_utf8 : Bytes → Option Bytes)
    (ascii : (l : Bytes) → All (λ b. b < 128) l → from_utf8 l ≡ some l) where
  push_label_lem :
      (acc l : Bytes)
      → is_empty acc ≡ false
      → IsLabel l
      → push_label from_utf8 acc (low l) ≡ some ((acc ++ dot ∷ []) ++ low l)
  unfolding push_label
  push_label_lem acc l h k = ground (arith, ascii (low l) (valid_ascii l (ground arith)))

  is_empty-append : (acc u : Bytes) → is_empty acc ≡ false → is_empty (acc ++ u) ≡ false
  is_empty-append [] u h = cc
  is_empty-append (x ∷ acc) u h = refl

  push_labels-dotted :
      (acc : Bytes) (ls : List Bytes)
      → is_empty acc ≡ false
      → All IsLabel ls
      → push_labels from_utf8 acc (map low ls) ≡ some (acc ++ dotted (map low ls))
  unfolding push_labels dotted
  push_labels-dotted acc [] h k = ap some (sym (append-nil acc))
  push_labels-dotted acc (l ∷ ls) h k =
      let full : is_empty ((acc ++ dot ∷ []) ++ low l) ≡ false =
        is_empty-append (acc ++ dot ∷ []) (low l) (is_empty-append acc (dot ∷ []) h) in
      rw (push_label_lem acc l h k.0, push_labels)
        (push_labels-dotted ((acc ++ dot ∷ []) ++ low l) ls full k.1 ∙ ap some (simp append_assoc))

  push_labels-join :
      (ls : List Bytes)
      → All IsLabel ls
      → push_labels from_utf8 [] (map low ls) ≡ some (map lower (join ls))
  unfolding join push_labels push_label
  push_labels-join [] k = refl
  push_labels-join (l ∷ ls) k =
      rw (ascii (low l) (valid_ascii l (ground arith)), push_labels)
        (push_labels-dotted (low l) ls (low_full l (ground arith)) k.1
          ∙ ap some (ap (λ r. low l ++ r) (dotted-map ls) ∙ sym (map-append lower l (dotted ls))))

label_pos : (l : Bytes) → IsLabel l → 0 < length l
label_pos [] h = cc
label_pos (b ∷ l) h = omega arith

count-le : (ls : List Bytes) → All IsLabel ls → length ls + length ls ≤ length (encode ls)
unfolding encode
count-le [] k = omega arith
count-le (l ∷ ls) k =
    ground
      (arith, length-append (low l) (encode ls), length-map l, label_pos l k.0, count-le ls k.1)

All-split {ℓ} :
    {A : Type 0} (P : A → Type ℓ) (xs ys : List A) → All P (xs ++ ys) → All P xs × All P ys
All-split P [] ys h = (tt, h)
All-split P (x ∷ xs) ys h = let (a, b) = All-split P xs ys h.1 in ((h.0, a), b)

All-reverse {ℓ} : {A : Type 0} (P : A → Type ℓ) (xs : List A) → All P (reverse xs) → All P xs
unfolding reverse
All-reverse P [] h = h
All-reverse P (x ∷ xs) h =
    let (a, b) = All-split P (reverse xs) (x ∷ []) h in (b.0, All-reverse P xs a)

starts_with-take : (q k : Bytes) → starts_with q k ≡ true → take (length k) q ≡ k
unfolding starts_with take
starts_with-take q [] h = refl
starts_with-take [] (y ∷ k) h = cc
starts_with-take (x ∷ q) (y ∷ k) h = ground (arith, starts_with-take q k)

starts_with-le : (q k : Bytes) → starts_with q k ≡ true → length k ≤ length q
unfolding starts_with
starts_with-le q [] h = omega arith
starts_with-le [] (y ∷ k) h = cc
starts_with-le (x ∷ q) (y ∷ k) h = ground (arith, starts_with-le q k)

rule_text_lem :
    (from_utf8 : Bytes → Option Bytes) (q : Bytes) (n : ℕ) (labels : List Bytes)
    → n ≤ length q
    → key_labels 127 (take n q) ≡ some labels
    → rule_text from_utf8 q n ≡ push_labels from_utf8 [] (reverse labels)
unfolding rule_text
rule_text_lem from_utf8 q n labels h e = ground arith

module _ (from_utf8 : Bytes → Option Bytes)
    (ascii : (l : Bytes) → All (λ b. b < 128) l → from_utf8 l ≡ some l) where
  -- Where a query's key begins with the key of a rule's text, the text that is printed for the
  -- match is the rule's, in lower case and with no dot at its end. The decoding of text takes
  -- ASCII as it is.
  pub rule_text-rule :
      (text q k : Bytes)
      → rule text ≡ rule_key k
      → starts_with q k ≡ true
      → rule_text from_utf8 q (length k) ≡ some (map lower (strip_dot text))
  unfolding rule_names
  rule_text-rule text q k h covers =
      let (is_key, labels, short) = rule-eq_key text h in
      let t = strip_dot text in
      let few : length (rule_names text) ≤ 127 =
        omega (arith, ap length is_key, count-le (rule_names text) labels) in
      rule_text_lem from_utf8 q (length k) (map low (reverse (split t))) (starts_with-le q k covers)
        (ap (key_labels 127) (starts_with-take q k covers ∙ is_key)
          ∙ key_labels-encode 127 (reverse (split t)) few labels)
      ∙ ap (push_labels from_utf8 []) (reverse-map-reverse (split t))
      ∙ push_labels-join from_utf8 ascii (split t) (All-reverse IsLabel (split t) labels)
      ∙ ap (λ r. some (map lower r)) (join-split t)
