-- ===== src/Policy/Labels.antt =====
-- policy/canonical.rs, `Key`: what a key says of the labels that it is made of.
use pari_ns.Prelude.{
  ◌%◌, ◌<◌, ◌≡◌, refl, ◌∙◌, ap, Bool, true, false, ◌&&◌, List, [], ◌∷◌, ◌++◌, map, length, All,
  arith, ℕ_discrete,
}
use pari_ns.Prelude.Bytes.{starts_with, same_bytes}
use pari_ns.Policy.Key.{Bytes, lower}

-- The key of labels.
unfoldable pub encode : List Bytes → Bytes
encode [] = []
encode (l ∷ ls) = (length l % 256) ∷ map lower l ++ encode ls

-- Two labels are the same but for the case of ASCII letters.
abbrev pub same_label : Bytes → Bytes → Bool
same_label a b = same_bytes (map lower a) (map lower b)

-- The second labels are the first of the first ones.
unfoldable pub starts_labels : List Bytes → List Bytes → Bool
starts_labels ls [] = true
starts_labels [] (m ∷ ms) = false
starts_labels (l ∷ ls) (m ∷ ms) = same_label l m && starts_labels ls ms

pub length-map : (l : Bytes) → length (map lower l) ≡ length l
length-map [] = refl
length-map (b ∷ l) = omega (arith, length-map l)

starts_with-append :
    (u v r s : Bytes)
    → length u ≡ length v
    → starts_with (u ++ r) (v ++ s) ≡ (same_bytes u v && starts_with r s)
unfolding starts_with same_bytes
starts_with-append [] [] r s h = refl
starts_with-append [] (y ∷ v) r s h = absurd (omega arith)
starts_with-append (x ∷ u) [] r s h = absurd (omega arith)
starts_with-append (x ∷ u) (y ∷ v) r s h = ground (arith, starts_with-append u v r s)

same_bytes-length : (u v : Bytes) → same_bytes u v ≡ true → length u ≡ length v
unfolding same_bytes
same_bytes-length [] [] h = refl
same_bytes-length [] (y ∷ v) h = cc
same_bytes-length (x ∷ u) [] h = cc
same_bytes-length (x ∷ u) (y ∷ v) h = ground (arith, same_bytes-length u v)

abbrev pub IsShort : Bytes → Type 0
IsShort l = length l < 256

-- The length bytes and the labels after them, without the next labels.
same-starts :
    (l m r s : Bytes)
    → IsShort l
    → IsShort m
    → starts_with ((length l % 256) ∷ map lower l ++ r) ((length m % 256) ∷ map lower m ++ s)
      ≡ (same_label l m && starts_with r s)
unfolding starts_with
same-starts l m r s h k = elim (ℕ_discrete (length l) (length m)) [
  | yes e ↦
      ground (arith, starts_with-append (map lower l) (map lower m) r s, length-map l, length-map m)
  | no ne ↦
      ground (arith, same_bytes-length (map lower l) (map lower m), length-map l, length-map m)
]

pub starts_with-encode :
    (ls ms : List Bytes)
    → All IsShort ls
    → All IsShort ms
    → starts_with (encode ls) (encode ms) ≡ starts_labels ls ms
unfolding encode starts_with starts_labels
starts_with-encode ls [] h k = refl
starts_with-encode [] (m ∷ ms) h k = refl
starts_with-encode (l ∷ ls) (m ∷ ms) h k =
    same-starts l m (encode ls) (encode ms) h.0 k.0
    ∙ ap (λ b. same_label l m && b) (starts_with-encode ls ms h.1 k.1)
