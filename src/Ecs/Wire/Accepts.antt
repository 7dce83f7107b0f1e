-- ===== src/Ecs/Wire/Accepts.antt =====
-- ecs.rs, `validate_wire`: records whose OPT records have options that fit are passed.
use pari_ns.Prelude.{
  ℕ, suc, ◌+◌, ◌≡◌, ◌≢◌, refl, sym, ◌∙◌, ap, subst, ◌⊎◌, inl, inr, true, List, [], ◌∷◌, ◌++◌, arith,
  ◌==◌, length, length-append, All, Bool-cases,
}
use pari_ns.Ecs.Decoder.{Bytes, Decoder}
use pari_ns.Ecs.Wire.{Options, is_subnet, passed, check_record, check_records}
use pari_ns.Ecs.Wire.Options.{of_code, of_code-append, IsOptions, AreOptions, no_record, other, opt}
use pari_ns.Ecs.Wire.Complete.{Fits, passed_eq, check_options-passed}
use pari_ns.Ecs.Wire.Records.{AreRecords, no_more, one_more}

All-split {κ} :
    {A : Type 0} (P : A → Type κ) (xs ys : List A) → All P (xs ++ ys) → All P xs × All P ys
All-split P [] ys h = (tt, h)
All-split P (x ∷ xs) ys h = let rest = All-split P xs ys h.1 in ((h.0, rest.0), rest.1)

nil_options : (options : Options) → AreOptions [] options → options ≡ []
nil_options _ no_record = refl

cons_options :
    (kind : ℕ) (data_ : Bytes) (records : List (ℕ × Bytes)) (options : Options)
    → AreOptions ((kind, data_) ∷ records) options
    → ((kind ≢ 41) × AreOptions records options)
      ⊎ ((own : Options) × (later : Options) × (options ≡ own ++ later)
          × (kind ≡ 41)
          × IsOptions data_ own
          × AreOptions records later)
cons_options _ _ _ _ (other kind data_ records options h are) = inl (h, are)
cons_options _ _ _ _ (opt kind data_ own records options h is are) =
    inr (own, options, refl, h, is, are)

split-Fits :
    (ecs padding : ℕ) (xs ys : Options)
    → Fits ecs padding (xs ++ ys)
    → Fits ecs padding xs × Fits (ecs + length (of_code 8 xs)) (padding + length (of_code 12 xs)) ys
split-Fits ecs padding xs ys w =
    let (a, b) =
      All-split (λ d. is_subnet d ≡ true) (of_code 8 xs) (of_code 8 ys)
        (rw (of_code-append 8 xs ys) at w.valid) in
    let eight : length (of_code 8 (xs ++ ys)) ≡ length (of_code 8 xs) + length (of_code 8 ys) =
      ap length (of_code-append 8 xs ys) ∙ length-append (of_code 8 xs) (of_code 8 ys) in
    let twelve : length (of_code 12 (xs ++ ys)) ≡ length (of_code 12 xs) + length (of_code 12 ys) =
      ap length (of_code-append 12 xs ys) ∙ length-append (of_code 12 xs) (of_code 12 ys) in
    (
      record {
        subnets = omega (arith, w.subnets, eight);
        paddings = omega (arith, w.paddings, twelve);
        valid = a;
      },
      record {
        subnets = omega (arith, w.subnets, eight);
        paddings = omega (arith, w.paddings, twelve);
        valid = b;
      },
    )

count-append :
    (code n : ℕ) (xs ys : Options)
    → n + length (of_code code xs) + length (of_code code ys) ≡ n + length (of_code code (xs ++ ys))
count-append code n xs ys = omega (
  arith,
  ap length (of_code-append code xs ys),
  length-append (of_code code xs) (of_code code ys),
)

module _ (decoder : Decoder) where
  open decoder use {Reader, new, rest_new}

  other_record :
      (ecs padding kind : ℕ) (data_ : Bytes)
      → kind ≢ 41
      → check_record decoder ecs padding kind data_ ≡ passed (ecs, padding)
  unfolding check_record
  other_record ecs padding kind data_ h = elim (Bool-cases (kind == 41)) [
    | inl is_opt ↦ absurd (h (ground arith))
    | inr not_opt ↦ rw (not_opt, check_record) refl
  ]

  opt_record :
      (ecs padding kind : ℕ) (data_ : Bytes) (own : Options)
      → kind ≡ 41
      → IsOptions data_ own
      → Fits ecs padding own
      → check_record decoder ecs padding kind data_
        ≡ passed (ecs + length (of_code 8 own), padding + length (of_code 12 own))
  unfolding check_record
  opt_record ecs padding kind data_ own h is w =
      let is_opt : (kind == 41) ≡ true = ground arith in
      rw (is_opt, check_record)
        (check_options-passed decoder data_ own is (suc (length data_)) ecs padding (new data_)
          (rest_new data_) (omega arith) w)

  pub check_records-passed :
      (n : ℕ) (d : Reader) (records : List (ℕ × Bytes))
      → AreRecords decoder n d records
      → (options : Options) (ecs padding : ℕ) → AreOptions records options
      → Fits ecs padding options
      → check_records decoder n ecs padding d
        ≡ passed (ecs + length (of_code 8 options), padding + length (of_code 12 options))
  unfolding check_records of_code
  check_records-passed _ _ _ (no_more d) options ecs padding are w =
      rw (nil_options options are) (passed_eq ecs padding _ _ (omega arith) (omega arith))
  check_records-passed _ _ _ (one_more n d left kind data_ records t following) options ecs padding
        are w =
      elim (cons_options kind data_ records options are) [
        | inl (h, later) ↦
            rw (t.is_read, check_records)
              (rw (other_record ecs padding kind data_ h, check_records)
                (check_records-passed n left records following options ecs padding later w))
        | inr (own, later, whole, h, is, rest) ↦
            let (now, then_) =
              split-Fits ecs padding own later (subst (Fits ecs padding) whole w) in
            rw (t.is_read, check_records)
              (rw (opt_record ecs padding kind data_ own h is now, check_records)
                (check_records-passed n left records following later _ _ rest then_
                  ∙ passed_eq _ _ _ _
                      (count-append 8 ecs own later
                        ∙ ap (λ o. ecs + length (of_code 8 o)) (sym whole))
                      (count-append 12 padding own later
                        ∙ ap (λ o. padding + length (of_code 12 o)) (sym whole))))
      ]
