-- ===== src/Ecs/Wire/Sound.antt =====
-- ecs.rs, `validate_wire`: what a message comes to, from its bytes.
use pari_ns.Prelude.{
  leb, sym, subst, refl, All-map, ℕ, ◌+◌, ◌-◌, ◌*◌, ◌/◌, ◌%◌, ◌^◌, ◌≤◌, ◌≡◌, ◌⊎◌, inl, inr, true,
  ◌||◌, some, List, arith, ◌==◌, length, All, Bool-cases, Option-cases,
}
use pari_ns.Ecs.Decoder.{Bytes, HeaderCounts, Decoder}
use pari_ns.Ecs.Wire.{
  Options, byte, family_bits, lengths_fit, is_subnet, Checked, passed, refused, read_queries,
  records_of, check_records, validate_wire,
}
use pari_ns.Ecs.Wire.Options.{of_code, AreOptions}
use pari_ns.Ecs.Wire.Complete.{Fits}
use pari_ns.Ecs.Wire.Accepts.{check_records-passed}
use pari_ns.Ecs.Wire.Records.{
  AreRecords, RecordsChecked, records_refused, records_read, check_records-RecordsChecked,
}

-- A well-formed client subnet option: the family is one of two, the prefixes are
-- within its address bits, the address has as many bytes as the source prefix needs, and no bit
-- past the prefix is set.
pub record IsSubnet (data_ : List ℕ) : Type 0 where
  pub bits : ℕ
  pub family : family_bits (byte 0 data_ * 256 + byte 1 data_) ≡ some bits
  pub source : byte 2 data_ ≤ bits
  pub scope : byte 3 data_ ≤ bits
  pub address : length data_ ≡ 4 + (byte 2 data_ + 7) / 8
  pub padded :
      (byte 2 data_ % 8 ≡ 0) ⊎ (byte (length data_ - 1) data_ % 2 ^ (8 - byte 2 data_ % 8) ≡ 0)

padded_lem : (a b : ℕ) → (a == 0 || b == 0) ≡ true → (a ≡ 0) ⊎ (b ≡ 0)
padded_lem a b h = elim (Bool-cases (a == 0)) [
  | inl q ↦ inl (ground arith)
  | inr q ↦ inr (ground arith)
]

is_subnet-IsSubnet : (data_ : List ℕ) → is_subnet data_ ≡ true → IsSubnet data_
unfolding is_subnet
is_subnet-IsSubnet data_ h = elim (Option-cases (family_bits (byte 0 data_ * 256 + byte 1 data_))) [
  | inl q ↦ absurd (ground arith)
  | inr (bits, q) ↦
      let fit : lengths_fit bits data_ ≡ true = ground arith in
      record {
        bits = bits;
        family = q;
        source = ground arith;
        scope = ground arith;
        address = ground arith;
        padded = padded_lem (byte 2 data_ % 8) _ (ground arith);
      }
]

is_padded : (a b : ℕ) → (a ≡ 0) ⊎ (b ≡ 0) → (a == 0 || b == 0) ≡ true
is_padded a b (inl h) = ground arith
is_padded a b (inr h) = elim (Bool-cases (a == 0)) [ inl q ↦ ground arith | inr q ↦ ground arith ]

IsSubnet-is_subnet : (data_ : List ℕ) → IsSubnet data_ → is_subnet data_ ≡ true
unfolding is_subnet
IsSubnet-is_subnet data_ w =
    let long : leb 4 (length data_) ≡ true = ground (arith, w.address) in
    let source : leb (byte 2 data_) w.bits ≡ true = ground (arith, w.source) in
    let scope : leb (byte 3 data_) w.bits ≡ true = ground (arith, w.scope) in
    let address : (length data_ == 4 + (byte 2 data_ + 7) / 8) ≡ true = ground (arith, w.address) in
    rw (long, w.family, source, scope, address) (is_padded _ _ w.padded)

module _ (decoder : Decoder) where
  open decoder use {
    Reader, new, rest, is_empty, read_u16, read_u32, read_slice, read_header, read_query, read_name,
    rest_new, rest_empty, rest_u16, rest_u32, rest_slice,
  }

  -- A message to accept: its header and its queries are read, and behind them as many records as the
  -- header counts; and the options of the OPT records among all these have at most one client
  -- subnet, which is well-formed, and at most one padding.
  pub record Acceptable (bytes : Bytes) : Type 0 where
    pub counts : HeaderCounts
    pub d : Reader
    pub d' : Reader
    pub records : List (ℕ × Bytes)
    pub options : Options
    pub header : read_header (new bytes) ≡ some (counts, d)
    pub queries : read_queries decoder counts.queries d ≡ some d'
    pub are_records :
        AreRecords decoder (counts.answers + counts.authorities + counts.additionals) d' records
    pub are_options : AreOptions records options
    pub subnets : length (of_code 8 options) ≤ 1
    pub paddings : length (of_code 12 options) ≤ 1
    pub valid : All (λ subnet. IsSubnet subnet) (of_code 8 options)

  -- What a message comes to.
  pub data Validated (bytes : Bytes) : Checked (ℕ × ℕ) → Type 0 where
    rejected : ¬ Acceptable bytes → Validated bytes refused
    accepted : (after : ℕ × ℕ) → Acceptable bytes → Validated bytes (passed after)

  Acceptable-passed :
      (bytes : Bytes)
      → Acceptable bytes
      → (after : ℕ × ℕ) × (validate_wire decoder bytes ≡ passed after)
  unfolding validate_wire
  Acceptable-passed bytes w =
      let fits : Fits 0 0 w.options = record {
        subnets = omega (arith, w.subnets);
        paddings = omega (arith, w.paddings);
        valid = All-map (λ d q. IsSubnet-is_subnet d q) (of_code 8 w.options) w.valid;
      } in
      (
        (0 + length (of_code 8 w.options), 0 + length (of_code 12 w.options)),
        rw (w.header, validate_wire)
            (rw (w.queries, validate_wire)
              (check_records-passed decoder (records_of decoder w.counts) w.d' w.records
                w.are_records w.options 0 0 w.are_options fits)),
      )

  not_refused : (bytes : Bytes) → validate_wire decoder bytes ≡ refused → ¬ Acceptable bytes
  not_refused bytes h w = let (after, q) = Acceptable-passed bytes w in cc

  records-Validated :
      (bytes : Bytes) (counts : HeaderCounts) (d d' : Reader)
      → read_header (new bytes) ≡ some (counts, d)
      → read_queries decoder counts.queries d ≡ some d'
      → (c : Checked (ℕ × ℕ)) → validate_wire decoder bytes ≡ c
      → RecordsChecked decoder (records_of decoder counts) 0 0 d' c
      → Validated bytes c
  records-Validated bytes counts d d' h k _ q records_refused = rejected (not_refused bytes q)
  records-Validated bytes counts d d' h k _ q (records_read records options after are of w) =
      accepted after (record {
        counts = counts;
        d = d;
        d' = d';
        records = records;
        options = options;
        header = h;
        queries = k;
        are_records = are;
        are_options = of;
        subnets = omega (arith, w.subnets, w.one_subnet);
        paddings = omega (arith, w.paddings, w.one_padding);
        valid = All-map (λ d q. is_subnet-IsSubnet d q) (of_code 8 options) w.valid;
      })

  refused_lem :
      (bytes : Bytes)
      → validate_wire decoder bytes ≡ refused
      → Validated bytes (validate_wire decoder bytes)
  refused_lem bytes h = rw h (rejected (not_refused bytes h))

  -- With a decoder that reads numbers and slices as documented: the check of a message's wire ends
  -- with an answer within its fuel, and accepts exactly the messages of this kind: the header, the
  -- queries and as many records as the header counts are read, each record a name, ten bytes and
  -- its data; the data of each OPT record is options, each a code, a length and as many bytes; and
  -- the options of all OPT records together have at most one client subnet, which is well-formed,
  -- and at most one padding.
  pub validate_wire-Validated : (bytes : Bytes) → Validated bytes (validate_wire decoder bytes)
  unfolding validate_wire
  validate_wire-Validated bytes = elim (Option-cases (read_header (new bytes))) [
    | inl q ↦ refused_lem bytes (rw (q, validate_wire) refl)
    | inr ((counts, d), q) ↦ elim (Option-cases (read_queries decoder counts.queries d)) [
      | inl p ↦ refused_lem bytes (rw (q, validate_wire) (rw (p, validate_wire) refl))
      | inr (d', p) ↦
          let run : validate_wire decoder bytes
              ≡ check_records decoder (records_of decoder counts) 0 0 d' =
            rw (q, validate_wire) (rw (p, validate_wire) refl) in
          subst (λ c. Validated bytes c) (sym run)
            (records-Validated bytes counts d d' q p _ run (
              check_records-RecordsChecked decoder (records_of decoder counts) 0 0 d' (omega arith)
                (omega arith)))
    ]
  ]
