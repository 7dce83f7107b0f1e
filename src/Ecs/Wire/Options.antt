-- ===== src/Ecs/Wire/Options.antt =====
-- ecs.rs, `validate_wire`: the options of a record as a relation to its bytes, and what the loop over
-- them counts.
use pari_ns.Prelude.{
  All-append, ℕ, zero, suc, ◌+◌, ◌*◌, ◌≤◌, ◌<◌, ◌≡◌, ◌≢◌, refl, sym, ap, subst, inl, inr, true,
  false, some, List, [], ◌∷◌, ◌++◌, arith, ◌==◌, if◌then◌else◌, length, length-append, All,
  Bool-cases, Option-cases,
}
use pari_ns.Ecs.Decoder.{Bytes, Decoder}
use pari_ns.Ecs.Wire.{
  Options, is_subnet, Checked, passed, refused, check_option, read_option, check_options,
}

-- The options of a code.
unfoldable pub of_code : ℕ → Options → List (List ℕ)
of_code code [] = []
of_code code ((k, data_) ∷ options) =
    if k == code then data_ ∷ of_code code options else of_code code options

-- The bytes of a record's data are those of the options: each a code, a length and as many bytes.
pub data IsOptions : Bytes → Options → Type 0 where
  no_option : IsOptions [] []
  option :
      (a b c d : ℕ) (data_ left : Bytes) (options : Options)
      → length data_ ≡ c * 256 + d
      → IsOptions left options
      → IsOptions (a ∷ b ∷ c ∷ d ∷ data_ ++ left) ((a * 256 + b, data_) ∷ options)

-- The options of all OPT records among records of a type with data, in order.
pub data AreOptions : List (ℕ × Bytes) → Options → Type 0 where
  no_record : AreOptions [] []
  other :
      (kind : ℕ) (data_ : Bytes) (records : List (ℕ × Bytes)) (options : Options)
      → kind ≢ 41
      → AreOptions records options
      → AreOptions ((kind, data_) ∷ records) options
  opt :
      (kind : ℕ) (data_ : Bytes) (own : Options) (records : List (ℕ × Bytes)) (options : Options)
      → kind ≡ 41
      → IsOptions data_ own
      → AreOptions records options
      → AreOptions ((kind, data_) ∷ records) (own ++ options)

pub of_code-append :
    (code : ℕ) (xs ys : Options) → of_code code (xs ++ ys) ≡ of_code code xs ++ of_code code ys
unfolding of_code
of_code-append code [] ys = refl
of_code-append code ((k, data_) ∷ xs) ys = ground (arith, of_code-append code xs ys)

-- The counts after some options, and what is known of the client subnets among those.
pub record Within (ecs padding : ℕ) (options : Options) (after : ℕ × ℕ) : Type 0 where
  pub subnets : after.0 ≡ ecs + length (of_code 8 options)
  pub paddings : after.1 ≡ padding + length (of_code 12 options)
  pub one_subnet : after.0 ≤ 1
  pub one_padding : after.1 ≤ 1
  pub valid : All (λ d. is_subnet d ≡ true) (of_code 8 options)

pub none-Within : (ecs padding : ℕ) → ecs ≤ 1 → padding ≤ 1 → Within ecs padding [] (ecs, padding)
unfolding of_code
none-Within ecs padding h k = record {
  subnets = omega arith;
  paddings = omega arith;
  one_subnet = h;
  one_padding = k;
  valid = tt;
}

pub append-Within :
    (ecs padding : ℕ) (xs ys : Options) (a b : ℕ × ℕ)
    → Within ecs padding xs a
    → Within a.0 a.1 ys b
    → Within ecs padding (xs ++ ys) b
append-Within ecs padding xs ys a b v w = record {
  subnets =
      rw (of_code-append 8 xs ys)
        (omega (arith, v.subnets, w.subnets, length-append (of_code 8 xs) (of_code 8 ys)));
  paddings =
      rw (of_code-append 12 xs ys)
        (omega (arith, v.paddings, w.paddings, length-append (of_code 12 xs) (of_code 12 ys)));
  one_subnet = w.one_subnet;
  one_padding = w.one_padding;
  valid = rw (of_code-append 8 xs ys) (All-append _ _ _ v.valid w.valid);
}

option-Within :
    (ecs padding code : ℕ) (data_ : Bytes) (after : ℕ × ℕ)
    → ecs ≤ 1
    → padding ≤ 1
    → check_option ecs padding code data_ ≡ some after
    → Within ecs padding ((code, data_) ∷ []) after
unfolding check_option of_code
option-Within ecs padding code data_ after h k q = elim (Bool-cases (code == 12)) [
  | inl pad ↦
      let eight : (code == 8) ≡ false = ground arith in
      record {
        subnets = ground arith;
        paddings = ground arith;
        one_subnet = ground arith;
        one_padding = ground arith;
        valid = rw eight tt;
      }
  | inr nopad ↦ elim (Bool-cases (code == 8)) [
    | inl eight ↦
        let ok : is_subnet data_ ≡ true = ground arith in
        record {
          subnets = ground arith;
          paddings = ground arith;
          one_subnet = ground arith;
          one_padding = ground arith;
          valid = rw eight (ok, tt);
        }
    | inr neither ↦ record {
      subnets = ground arith;
      paddings = ground arith;
      one_subnet = ground arith;
      one_padding = ground arith;
      valid = rw neither tt;
    }
  ]
]

-- What the loop over the options comes to: it does not run out of fuel.
pub data OptionsChecked (ecs padding : ℕ) (bytes : Bytes) : Checked (ℕ × ℕ) → Type 0 where
  options_refused : OptionsChecked ecs padding bytes refused
  options_read :
      (options : Options) (after : ℕ × ℕ)
      → IsOptions bytes options
      → Within ecs padding options after
      → OptionsChecked ecs padding bytes (passed after)

module _ (decoder : Decoder) where
  open decoder use {
    Reader, new, rest, is_empty, read_u16, read_u32, read_slice, read_header, read_query, read_name,
    rest_new, rest_empty, rest_u16, rest_u32, rest_slice,
  }

  -- What an option takes from a reader.
  record TakesOption (d : Reader) (code : ℕ) (data_ : Bytes) (left : Reader) : Type 0 where
    a : ℕ
    b : ℕ
    c : ℕ
    e : ℕ
    bytes : rest d ≡ a ∷ b ∷ c ∷ e ∷ data_ ++ rest left
    is_code : code ≡ a * 256 + b
    size : length data_ ≡ c * 256 + e

  option-TakesOption :
      (d : Reader) (code : ℕ) (data_ : Bytes) (left : Reader)
      → read_option decoder d ≡ some (code, data_, left)
      → TakesOption d code data_ left
  unfolding read_option
  option-TakesOption d code data_ left h = elim (Option-cases (read_u16 d)) [
    | inl q ↦ absurd (ground arith)
    | inr ((n, d1), q1) ↦ elim (Option-cases (read_u16 d1)) [
      | inl q ↦ absurd (ground arith)
      | inr ((size, d2), q2) ↦ elim (Option-cases (read_slice size d2)) [
        | inl q ↦ absurd (ground arith)
        | inr ((s, d3), q3) ↦
            let (a, b, e1, f1) = rest_u16 d n d1 q1 in
            let (c, e, e2, f2) = rest_u16 d1 size d2 q2 in
            let (e3, f3) = rest_slice size d2 s d3 q3 in
            let data_same : s ≡ data_ = ground arith in
            let left_same : d3 ≡ left = ground arith in
            let code_same : n ≡ code = ground arith in
            record { a = a; b = b; c = c; e = e; bytes = cc; is_code = cc; size = cc }
      ]
    ]
  ]

  more_options :
      (ecs padding code : ℕ) (data_ : Bytes) (mid : ℕ × ℕ) (d left : Reader)
      → TakesOption d code data_ left
      → Within ecs padding ((code, data_) ∷ []) mid
      → (c : Checked (ℕ × ℕ)) → OptionsChecked mid.0 mid.1 (rest left) c
      → OptionsChecked ecs padding (rest d) c
  more_options ecs padding code data_ mid d left t w _ options_refused = options_refused
  more_options ecs padding code data_ mid d left t w _ (options_read options after is within) =
      options_read ((code, data_) ∷ options) after
        (subst (λ bytes. IsOptions bytes ((code, data_) ∷ options)) (sym t.bytes)
          (subst
            (λ n. IsOptions (t.a ∷ t.b ∷ t.c ∷ t.e ∷ data_ ++ rest left) ((n, data_) ∷ options))
            (sym t.is_code) (option t.a t.b t.c t.e data_ (rest left) options t.size is)))
        (append-Within ecs padding ((code, data_) ∷ []) options mid after w within)

  pub check_options-OptionsChecked :
      (fuel ecs padding : ℕ) (d : Reader)
      → length (rest d) < fuel
      → ecs ≤ 1
      → padding ≤ 1
      → OptionsChecked ecs padding (rest d) (check_options decoder fuel ecs padding d)
  unfolding check_options
  check_options-OptionsChecked zero ecs padding d h m n = absurd (omega arith)
  check_options-OptionsChecked (suc fuel) ecs padding d h m n = elim (Bool-cases (is_empty d)) [
    | inl all ↦
        rw (all, check_options)
          (options_read [] (ecs, padding)
            (subst (λ bytes. IsOptions bytes []) (sym (rest_empty d all)) no_option)
            (none-Within ecs padding m n))
    | inr more ↦ elim (Option-cases (read_option decoder d)) [
      | inl q ↦ rw (more, check_options) (rw (q, check_options) options_refused)
      | inr ((code, data_, left), q) ↦
          let t = option-TakesOption d code data_ left q in
          elim (Option-cases (check_option ecs padding code data_)) [
            | inl p ↦
                rw (more, check_options)
                  (rw (q, check_options) (rw (p, check_options) options_refused))
            | inr (mid, p) ↦
                let w = option-Within ecs padding code data_ mid m n p in
                let shorter : length (rest left) < fuel =
                  omega (arith, h, ap length t.bytes, length-append data_ (rest left)) in
                rw (more, check_options)
                  (rw (q, check_options)
                    (rw (p, check_options)
                      (more_options ecs padding code data_ mid d left t w _ (
                        check_options-OptionsChecked fuel mid.0 mid.1 left shorter w.one_subnet
                          w.one_padding))))
          ]
    ]
  ]
