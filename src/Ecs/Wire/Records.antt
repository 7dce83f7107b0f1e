-- ===== src/Ecs/Wire/Records.antt =====
-- ecs.rs, `validate_wire`: the records of a message as a relation to a reader, and what the loop over
-- them counts.
use pari_ns.Prelude.{
  ℕ, zero, suc, ◌+◌, ◌*◌, ◌≤◌, ◌≡◌, ◌≢◌, ap, subst, inl, inr, some, List, [], ◌∷◌, ◌++◌, arith,
  ◌==◌, length, Bool-cases, Option-cases,
}
use pari_ns.Ecs.Decoder.{Bytes, Decoder}
use pari_ns.Ecs.Wire.{
  Options, Checked, passed, refused, spent, check_options, read_record, check_record, check_records,
}
use pari_ns.Ecs.Wire.Options.{
  IsOptions, AreOptions, no_record, other, opt, Within, none-Within, append-Within, OptionsChecked,
  options_refused, options_read, check_options-OptionsChecked,
}

module _ (decoder : Decoder) where
  open decoder use {
    Reader, new, rest, is_empty, read_u16, read_u32, read_slice, read_header, read_query, read_name,
    rest_new, rest_empty, rest_u16, rest_u32, rest_slice,
  }

  -- What a record takes from a reader: its name, ten bytes and its data.
  pub record TakesRecord (d : Reader) (kind : ℕ) (data_ : Bytes) (left : Reader) : Type 0 where
    pub a : ℕ
    pub b : ℕ
    pub c : ℕ
    pub e : ℕ
    pub fixed : Bytes
    pub behind : Reader
    pub name : read_name d ≡ some behind
    pub is_read : read_record decoder d ≡ some (kind, data_, left)
    pub bytes : rest behind ≡ a ∷ b ∷ (fixed ++ (c ∷ e ∷ (data_ ++ rest left)))
    pub is_kind : kind ≡ a * 256 + b
    pub class_and_ttl : length fixed ≡ 6
    pub size : length data_ ≡ c * 256 + e

  record-TakesRecord :
      (d : Reader) (kind : ℕ) (data_ : Bytes) (left : Reader)
      → read_record decoder d ≡ some (kind, data_, left)
      → TakesRecord d kind data_ left
  unfolding read_record
  record-TakesRecord d kind data_ left h = elim (Option-cases (read_name d)) [
    | inl q ↦ absurd (ground arith)
    | inr (d0, q0) ↦ elim (Option-cases (read_u16 d0)) [
      | inl q ↦ absurd (ground arith)
      | inr ((n, d1), q1) ↦ elim (Option-cases (read_u16 d1)) [
        | inl q ↦ absurd (ground arith)
        | inr ((cls, d2), q2) ↦ elim (Option-cases (read_u32 d2)) [
          | inl q ↦ absurd (ground arith)
          | inr ((ttl, d3), q3) ↦ elim (Option-cases (read_u16 d3)) [
            | inl q ↦ absurd (ground arith)
            | inr ((size, d4), q4) ↦ elim (Option-cases (read_slice size d4)) [
              | inl q ↦ absurd (ground arith)
              | inr ((s, d5), q5) ↦
                  let (a, b, e1, f1) = rest_u16 d0 n d1 q1 in
                  let (x, y, e2, f2) = rest_u16 d1 cls d2 q2 in
                  let (four, e3, f3) = rest_u32 d2 ttl d3 q3 in
                  let (c, e, e4, f4) = rest_u16 d3 size d4 q4 in
                  let (e5, f5) = rest_slice size d4 s d5 q5 in
                  let data_same : s ≡ data_ = ground arith in
                  let left_same : d5 ≡ left = ground arith in
                  let kind_same : n ≡ kind = ground arith in
                  record {
                    a = a;
                    b = b;
                    c = c;
                    e = e;
                    fixed = x ∷ y ∷ four;
                    behind = d0;
                    name = q0;
                    is_read = h;
                    bytes = cc;
                    is_kind = cc;
                    class_and_ttl = omega (arith, f3);
                    size = cc;
                  }
            ]
          ]
        ]
      ]
    ]
  ]

  -- As many records as this, of these types and data, from a reader on.
  pub data AreRecords : ℕ → Reader → List (ℕ × Bytes) → Type 0 where
    no_more : (d : Reader) → AreRecords 0 d []
    one_more :
        (n : ℕ) (d left : Reader) (kind : ℕ) (data_ : Bytes) (records : List (ℕ × Bytes))
        → TakesRecord d kind data_ left
        → AreRecords n left records
        → AreRecords (suc n) d ((kind, data_) ∷ records)

  pub data RecordsChecked (n ecs padding : ℕ) (d : Reader) : Checked (ℕ × ℕ) → Type 0 where
    records_refused : RecordsChecked n ecs padding d refused
    records_read :
        (records : List (ℕ × Bytes)) (options : Options) (after : ℕ × ℕ)
        → AreRecords n d records
        → AreOptions records options
        → Within ecs padding options after
        → RecordsChecked n ecs padding d (passed after)

  -- What one record comes to: the options of an OPT record, and none of another.
  data RecordChecked (ecs padding kind : ℕ) (data_ : Bytes) : Checked (ℕ × ℕ) → Type 0 where
    record_refused : RecordChecked ecs padding kind data_ refused
    record_other : kind ≢ 41 → RecordChecked ecs padding kind data_ (passed (ecs, padding))
    record_opt :
        (options : Options) (after : ℕ × ℕ)
        → kind ≡ 41
        → IsOptions data_ options
        → Within ecs padding options after
        → RecordChecked ecs padding kind data_ (passed after)

  opt_record :
      (ecs padding kind : ℕ) (data_ : Bytes) (c : Checked (ℕ × ℕ))
      → kind ≡ 41
      → OptionsChecked ecs padding data_ c
      → RecordChecked ecs padding kind data_ c
  opt_record ecs padding kind data_ _ h options_refused = record_refused
  opt_record ecs padding kind data_ _ h (options_read options after is w) =
      record_opt options after h is w

  check_record-RecordChecked :
      (ecs padding kind : ℕ) (data_ : Bytes)
      → ecs ≤ 1
      → padding ≤ 1
      → RecordChecked ecs padding kind data_ (check_record decoder ecs padding kind data_)
  unfolding check_record
  check_record-RecordChecked ecs padding kind data_ m n = elim (Bool-cases (kind == 41)) [
    | inr not_opt ↦ rw (not_opt, check_record) (record_other (λ e. ground arith))
    | inl is_opt ↦
        rw (is_opt, check_record)
          (opt_record ecs padding kind data_ _ (ground arith) (
            subst
              (λ bytes.
                OptionsChecked ecs padding bytes
                  (check_options decoder (suc (length data_)) ecs padding (new data_)))
              (rest_new data_)
              (check_options-OptionsChecked decoder (suc (length data_)) ecs padding (new data_)
                (omega (arith, ap length (rest_new data_))) m n)))
  ]

  more_records :
      (n ecs padding kind : ℕ) (data_ : Bytes) (options : Options) (mid : ℕ × ℕ) (d left : Reader)
      → TakesRecord d kind data_ left
      → ((records : List (ℕ × Bytes)) (later : Options)
          → AreOptions records later
          → AreOptions ((kind, data_) ∷ records) (options ++ later))
      → Within ecs padding options mid
      → (c : Checked (ℕ × ℕ)) → RecordsChecked n mid.0 mid.1 left c
      → RecordsChecked (suc n) ecs padding d c
  more_records n ecs padding kind data_ options mid d left t put w _ records_refused =
      records_refused
  more_records n ecs padding kind data_ options mid d left t put w _
        (records_read records later after are of within) =
      records_read ((kind, data_) ∷ records) (options ++ later) after
        (one_more n d left kind data_ records t are) (put records later of)
        (append-Within ecs padding options later mid after w within)

  after_record :
      (n ecs padding kind : ℕ) (data_ : Bytes) (d left : Reader)
      → TakesRecord d kind data_ left
      → ecs ≤ 1
      → padding ≤ 1
      → ((e p : ℕ) → e ≤ 1 → p ≤ 1 → RecordsChecked n e p left (check_records decoder n e p left))
      → (c : Checked (ℕ × ℕ)) → RecordChecked ecs padding kind data_ c
      → RecordsChecked (suc n) ecs padding d (elim c [
        | refused ↦ refused
        | spent ↦ spent
        | passed r ↦ check_records decoder n r.0 r.1 left
      ])
  after_record n ecs padding kind data_ d left t m k rest_checked _ record_refused = records_refused
  after_record n ecs padding kind data_ d left t m k rest_checked _ (record_other h) =
      more_records n ecs padding kind data_ [] (ecs, padding) d left t
        (λ records later of. other kind data_ records later h of) (none-Within ecs padding m k) _
        (rest_checked ecs padding m k)
  after_record n ecs padding kind data_ d left t m k rest_checked _ (record_opt own r h is w) =
      more_records n ecs padding kind data_ own r d left t
        (λ records later of. opt kind data_ own records later h is of) w _
        (rest_checked r.0 r.1 w.one_subnet w.one_padding)

  pub check_records-RecordsChecked :
      (n ecs padding : ℕ) (d : Reader)
      → ecs ≤ 1
      → padding ≤ 1
      → RecordsChecked n ecs padding d (check_records decoder n ecs padding d)
  unfolding check_records
  check_records-RecordsChecked zero ecs padding d m k =
      records_read [] [] (ecs, padding) (no_more d) no_record (none-Within ecs padding m k)
  check_records-RecordsChecked (suc n) ecs padding d m k =
      elim (Option-cases (read_record decoder d)) [
        | inl q ↦ rw (q, check_records) records_refused
        | inr ((kind, data_, left), q) ↦
            rw (q, check_records)
              (after_record n ecs padding kind data_ d left (record-TakesRecord d kind data_ left q)
                m k (λ e p. check_records-RecordsChecked n e p left) _
                (check_record-RecordChecked ecs padding kind data_ m k))
      ]
