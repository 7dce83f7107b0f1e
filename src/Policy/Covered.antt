-- ===== src/Policy/Covered.antt =====
-- policy.rs: the rules that a policy's index holds, and those that the covering keys stand for.
use pari_ns.Prelude.{
  ℕ, zero, suc, ◌%◌, ◌≤◌, ◌<◌, ◌≡◌, ◌≢◌, refl, sym, ◌∙◌, ap, true, some, List, [], ◌∷◌, ◌==◌,
  length, length-append, All, Bool-cases, Option-cases, arith, inl, inr, map,
}
use pari_ns.Prelude.Bytes.{take, reverse, starts_with}
use pari_ns.Policy.Key.{Bytes, query, push, push_all, rule_key, rule, lower}
use pari_ns.Policy.Radix.{Group, Match, found, no_slot}
use pari_ns.Policy.Radix.Stored.{Sources, stored, find, IsIndex}
use pari_ns.Policy.Radix.Verdict.{covering}
use pari_ns.Policy.Radix.Members.{GoodStop, path-All}
use pari_ns.Policy.Labels.{length-map}
use pari_ns.Policy.Explain.{Policy}

push-le : (l key key' : Bytes) → push l key ≡ some key' → length key' ≤ 255
unfolding push
push-le l key key' h =
    ground (arith, length-append key ((length l % 256) ∷ map lower l), length-map l)

push_all-le :
    (ls : List Bytes) (key out : Bytes)
    → length key ≤ 255
    → push_all ls key ≡ some out
    → length out ≤ 255
unfolding push_all
push_all-le [] key out h e = ground arith
push_all-le (l ∷ ls) key out h e = elim (Option-cases (push l key)) [
  | inl full ↦ absurd (ground arith)
  | inr (key', fits) ↦ push_all-le ls key' out (push-le l key key' fits) (ground arith)
]

query-le : (name : List Bytes) (key : Bytes) → query name ≡ some key → length key ≤ 255
unfolding query
query-le name key e = push_all-le (reverse name) [] key (omega arith) e

-- Every stored rule is the key of a rule's text, and its slot is one of the sources.
pub record IsPolicy (policy : Policy) : Type 0 where
  pub indexed : IsIndex policy.index
  pub rules :
      (k : Bytes) (s : Sources) (g : Group)
      → find k (stored policy.index) ≡ some s
      → s g ≢ no_slot
      → (text : Bytes) × (rule text ≡ rule_key k) × (s g < length policy.source_ids)

-- The rule of a match: its text has the matched key, the index stores that key with the match's
-- slot in the match's group, and the source of the slot is there.
pub record IsRule (policy : Policy) (key : Bytes) (m : Match) : Type 0 where
  pub text : Bytes
  pub matched : Bytes
  pub has_key : rule text ≡ rule_key matched
  pub covers : starts_with key matched ≡ true
  pub slots : Sources
  pub is_stored : find matched (stored policy.index) ≡ some slots
  pub slot : m.source_slot ≡ slots m.group
  pub is_used : m.source_slot ≢ no_slot
  pub length_lem : m.matched_key_len ≡ length matched
  pub sourced : m.source_slot < length policy.source_ids

take-starts : (n : ℕ) (xs : Bytes) → starts_with xs (take n xs) ≡ true
unfolding take starts_with
take-starts zero xs = refl
take-starts (suc n) [] = refl
take-starts (suc n) (x ∷ xs) = ground (arith, take-starts n xs)

length-take : (n : ℕ) (xs : Bytes) → n ≤ length xs → length (take n xs) ≡ n
unfolding take
length-take zero xs h = refl
length-take (suc n) [] h = absurd (omega arith)
length-take (suc n) (x ∷ xs) h = omega (arith, length-take n xs (omega arith))

found-cases :
    (s : Sources) (p : ℕ) (g : Group) (m : Match)
    → found s p g ≡ some m
    → (s g ≢ no_slot)
      × (m.source_slot ≡ s m.group)
      × (m.matched_key_len ≡ p % 65536)
      × (m.group ≡ g)
unfolding found
found-cases s p g m h = elim (Bool-cases (s g == no_slot)) [
  | inl e ↦ absurd (ground arith)
  | inr e ↦
      let same : m.group ≡ g = ground arith in
      let slot : m.source_slot ≡ s g = ground arith in
      (λ same. ground arith, slot ∙ ap s (sym same), ground arith, same)
]

module _ (policy : Policy) (v : IsPolicy policy) (name : List Bytes) (key : Bytes)
    (has_key : query name ≡ some key) where
  pub covering-IsRule : All (GoodStop (IsRule policy key)) (covering policy.index key)
  unfolding covering
  covering-IsRule =
      path-All (GoodStop (IsRule policy key)) (λ k. find k (stored policy.index)) 0 key
        (λ n q w src small here e g m is_match.
          let (slot, source, len, group) = found-cases src q g m is_match in
          let (text, is_rule, sourced) = v.rules (take n key) src g e slot in
          record {
            text = text;
            matched = take n key;
            has_key = is_rule;
            covers = take-starts n key;
            slots = src;
            is_stored = e;
            slot = source;
            is_used = λ e. slot (sym (source ∙ ap src group) ∙ e);
            length_lem =
                omega (arith, len, here, small, length-take n key small, query-le name key has_key);
            sourced = omega (arith, source, ap src group, sourced);
          })
