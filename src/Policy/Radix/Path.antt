-- ===== src/Policy/Radix/Path.antt =====
-- policy/radix.rs: the stored keys that a query's key begins with, in the order of a walk.
use pari_ns.Prelude.{
  ℕ, suc, ◌+◌, ◌≡◌, refl, ◌∙◌, ap, Bool, true, false, Option, none, some, List, [], ◌∷◌, ◌++◌,
  length, arith,
}
use mathlib.Core.Path.{fun_ext}
use pari_ns.Prelude.Bytes.{starts_with}
use pari_ns.Policy.Key.{Bytes}
use pari_ns.Policy.Radix.Stored.{Sources}

-- A stored key: its length, its slots, and whether it is the whole key of the query.
pub record Stop : Type 0 where
  pub position : ℕ
  pub sources : Sources
  pub whole : Bool

abbrev pub stop_at : Option Sources → ℕ → Bool → List Stop → List Stop
stop_at none p w stops = stops
stop_at (some s) p w stops = record { position = p; sources = s; whole = w } ∷ stops

-- The prefixes of the bytes that have slots, shortest first; the first prefix has length `p`.
unfoldable pub path : (Bytes → Option Sources) → ℕ → Bytes → List Stop
path s p [] = stop_at (s []) p true []
path s p (b ∷ rest) = stop_at (s []) p false (path (λ k. s (b ∷ k)) (p + 1) rest)

pub path-none :
    (s : Bytes → Option Sources) (p : ℕ) (rest : Bytes)
    → ((k : Bytes) → starts_with rest k ≡ true → s k ≡ none)
    → path s p rest ≡ []
unfolding path starts_with
path-none s p [] h = ground (arith, h [] refl)
path-none s p (b ∷ rest) h =
    ground
      (arith, h [] refl, path-none (λ k. s (b ∷ k)) (p + 1) rest (λ k e. h (b ∷ k) (ground arith)))

-- Bytes below which alone there are keys are skipped.
pub path-skip :
    (e : Bytes) (s s' : Bytes → Option Sources) (p : ℕ) (rest : Bytes)
    → ((k : Bytes) → s (e ++ k) ≡ s' k)
    → ((k : Bytes) → starts_with k e ≡ false → s k ≡ none)
    → path s p (e ++ rest) ≡ path s' (p + length e) rest
unfolding path starts_with
path-skip [] s s' p rest same none_else =
    ap (λ f. path f p rest) (fun_ext same)
    ∙ ap (λ (n : ℕ). path s' n rest) (let e : p ≡ p + 0 = omega arith in e)
path-skip (b ∷ e) s s' p rest same none_else =
    let skipped =
      path-skip e (λ k. s (b ∷ k)) s' (p + 1) rest (λ k. same k)
        (λ k ne. none_else (b ∷ k) (ground arith)) in
    let e : p + 1 + length e ≡ p + suc (length e) = omega arith in
    rw (none_else [] refl) (skipped ∙ ap (λ (n : ℕ). path s' n rest) e)
