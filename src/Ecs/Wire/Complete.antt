-- ===== src/Ecs/Wire/Complete.antt =====
-- ecs.rs, `validate_wire`: what is well-formed is accepted.
use pari_ns.Prelude.{
  ℕ, zero, suc, ◌+◌, ◌*◌, ◌≤◌, ◌<◌, ◌≡◌, refl, ◌∙◌, subst, inl, inr, true, false, some, ◌∷◌, ◌++◌,
  arith, ◌==◌, if◌then◌else◌, length, length-append, All, Bool-cases,
}
use pari_ns.Ecs.Decoder.{Bytes, Decoder}
use pari_ns.Ecs.Wire.{Options, is_subnet, Checked, passed, check_option, read_option, check_options}
use pari_ns.Ecs.Wire.Options.{of_code, IsOptions, no_option, option}

-- Options that may follow the counts.
pub record Fits (ecs padding : ℕ) (options : Options) : Type 0 where
  pub subnets : ecs + length (of_code 8 options) ≤ 1
  pub paddings : padding + length (of_code 12 options) ≤ 1
  pub valid : All (λ d. is_subnet d ≡ true) (of_code 8 options)

-- The counts after one option.
abbrev after : ℕ → ℕ → ℕ → ℕ × ℕ
after ecs padding code =
    (if code == 8 then ecs + 1 else ecs, if code == 12 then padding + 1 else padding)

check_option-after :
    (ecs padding code : ℕ) (data_ : Bytes) (options : Options)
    → Fits ecs padding ((code, data_) ∷ options)
    → check_option ecs padding code data_ ≡ some (after ecs padding code)
unfolding check_option of_code
check_option-after ecs padding code data_ options w = elim (Bool-cases (code == 12)) [
  | inl pad ↦
      let eight : (code == 8) ≡ false = ground arith in
      let free : padding ≡ 0 = ground (arith, w.paddings) in ground arith
  | inr nopad ↦ elim (Bool-cases (code == 8)) [
    | inl eight ↦
        let free : ecs ≡ 0 = ground (arith, w.subnets) in
        let ok : is_subnet data_ ≡ true = (rw (eight, of_code) at w.valid).0 in ground arith
    | inr neither ↦ ground arith
  ]
]

rest-Fits :
    (ecs padding code : ℕ) (data_ : Bytes) (options : Options)
    → Fits ecs padding ((code, data_) ∷ options)
    → Fits (after ecs padding code).0 (after ecs padding code).1 options
unfolding of_code
rest-Fits ecs padding code data_ options w = elim (Bool-cases (code == 8)) [
  | inl eight ↦ record {
    subnets = ground (arith, w.subnets);
    paddings = ground (arith, w.paddings);
    valid = (rw (eight, of_code) at w.valid).1;
  }
  | inr other ↦ record {
    subnets = ground (arith, w.subnets);
    paddings = ground (arith, w.paddings);
    valid = rw (other, of_code) at w.valid;
  }
]

pub passed_eq :
    (a b c d : ℕ) → a ≡ c → b ≡ d → ◌≡◌ {A = Checked (ℕ × ℕ)} (passed (a, b)) (passed (c, d))
passed_eq a b c d h k = rw (h, k) refl

module _ (decoder : Decoder) where
  open decoder use {
    Reader, rest, is_empty, read_u16, read_slice, read_u16_of, read_slice_of, rest_more, rest_nil,
  }

  read_option-some :
      (d : Reader) (a b c e : ℕ) (data_ left : Bytes)
      → rest d ≡ a ∷ b ∷ c ∷ e ∷ data_ ++ left
      → length data_ ≡ c * 256 + e
      → (d' : Reader) × (read_option decoder d ≡ some (a * 256 + b, data_, d')) × (rest d' ≡ left)
  unfolding read_option
  read_option-some d a b c e data_ left h size =
      let (d1, q1, r1) = read_u16_of d a b _ h in
      let (d2, q2, r2) = read_u16_of d1 c e _ r1 in
      let (d3, q3, r3) = read_slice_of d2 data_ left r2 in
      let q3' : read_slice (c * 256 + e) d2 ≡ some (data_, d3) =
        subst (λ n. read_slice n d2 ≡ some (data_, d3)) size q3 in
      (d3, rw (q1, read_option) (rw (q2, read_option) (rw (q3', read_option) refl)), r3)

  pub check_options-passed :
      (bytes : Bytes) (options : Options)
      → IsOptions bytes options
      → (fuel ecs padding : ℕ) (d : Reader) → rest d ≡ bytes
      → length bytes < fuel
      → Fits ecs padding options
      → check_options decoder fuel ecs padding d
        ≡ passed (ecs + length (of_code 8 options), padding + length (of_code 12 options))
  unfolding check_options of_code
  check_options-passed _ _ is zero ecs padding d h short w = absurd (omega arith)
  check_options-passed _ _ no_option (suc fuel) ecs padding d h short w =
      rw (rest_nil d h, check_options) (passed_eq ecs padding _ _ (omega arith) (omega arith))
  check_options-passed _ _ (option a b c e data_ left options size is) (suc fuel) ecs padding d h
        short w =
      let code = a * 256 + b in
      let (d', q, r) = read_option-some d a b c e data_ left h size in
      let p = check_option-after ecs padding code data_ options w in
      let later =
        check_options-passed left options is fuel (after ecs padding code).0
          (after ecs padding code).1 d' r (omega (arith, short, length-append data_ left))
          (rest-Fits ecs padding code data_ options w) in
      rw (rest_more d a _ h, check_options)
        (rw (q, check_options)
          (rw (p, check_options) (later ∙ passed_eq _ _ _ _ (ground arith) (ground arith))))
