-- ===== src/Ecs/Wire.antt =====
-- ecs.rs, `validate_wire`: the records of a message, the options of its OPT records, and the client
-- subnet and padding options among those. The two counts run through all records. Each option has at
-- least four bytes, so that the loop over a record's options has fewer rounds than its data has
-- bytes, and one.
pub mod Options
pub mod Complete
pub mod Records
pub mod Accepts
pub mod Sound
use pari_ns.Prelude.{
  ℕ, zero, suc, ◌+◌, ◌-◌, ◌*◌, ◌/◌, ◌%◌, ◌^◌, Bool, true, false, ◌&&◌, ◌||◌, Option, none, some,
  List, [], ◌∷◌, leb, ◌==◌, if◌then◌else◌, length,
}
use pari_ns.Ecs.Decoder.{Bytes, HeaderCounts, Decoder}

abbrev pub Options : Type 0
Options = List (ℕ × Bytes)

abbrev pub byte : ℕ → List ℕ → ℕ
byte n [] = 0
byte zero (b ∷ bs) = b
byte (suc n) (b ∷ bs) = byte n bs

-- The address bits of a family.
unfoldable pub family_bits : ℕ → Option ℕ
family_bits family = if family == 1 then some 32 else if family == 2 then some 128 else none

abbrev source_of : List ℕ → ℕ
source_of data_ = byte 2 data_

abbrev pub lengths_fit : ℕ → List ℕ → Bool
lengths_fit bits data_ =
    leb (source_of data_) bits
    && leb (byte 3 data_) bits
    && length data_ == 4 + (source_of data_ + 7) / 8
    && (source_of data_ % 8 == 0
        || byte (length data_ - 1) data_ % 2 ^ (8 - source_of data_ % 8) == 0)

-- One client subnet option.
unfoldable pub is_subnet : List ℕ → Bool
is_subnet data_ = leb 4 (length data_) && elim (family_bits (byte 0 data_ * 256 + byte 1 data_)) [
  | none ↦ false
  | some bits ↦ lengths_fit bits data_
]

-- What a message or a part of it comes to, with the counts of client subnets and paddings.
pub data Checked (A : Type 0) : Type 0 where
  passed : A → Checked A
  refused : Checked A
  spent : Checked A

-- One option, with the counts before it.
unfoldable pub check_option : ℕ → ℕ → ℕ → Bytes → Option (ℕ × ℕ)
check_option ecs padding code data_ =
    if code == 12
    then (if padding + 1 == 1 then some (ecs, padding + 1) else none)
    else if code == 8
    then (if ecs + 1 == 1 && is_subnet data_ then some (ecs + 1, padding) else none)
    else some (ecs, padding)

module _ (decoder : Decoder) where
  open decoder use {
    Reader, new, is_empty, read_u16, read_u32, read_slice, read_header, read_query, read_name,
  }

  unfoldable pub read_option : Reader → Option (ℕ × Bytes × Reader)
  read_option d = elim (read_u16 d) [
    | none ↦ none
    | some (code, d1) ↦ elim (read_u16 d1) [
      | none ↦ none
      | some (size, d2) ↦ elim (read_slice size d2) [
        | none ↦ none
        | some (data_, d3) ↦ some (code, data_, d3)
      ]
    ]
  ]

  -- The loop over the options of a record.
  unfoldable pub check_options : ℕ → ℕ → ℕ → Reader → Checked (ℕ × ℕ)
  check_options zero ecs padding options = spent
  check_options (suc fuel) ecs padding options = elim (is_empty options) [
    | true ↦ passed (ecs, padding)
    | false ↦ elim (read_option options) [
      | none ↦ refused
      | some (code, data_, left) ↦ elim (check_option ecs padding code data_) [
        | none ↦ refused
        | some (ecs', padding') ↦ check_options fuel ecs' padding' left
      ]
    ]
  ]

  -- The envelope of a record: its type and its data.
  unfoldable pub read_record : Reader → Option (ℕ × Bytes × Reader)
  read_record d = elim (read_name d) [
    | none ↦ none
    | some d0 ↦ elim (read_u16 d0) [
      | none ↦ none
      | some (kind, d1) ↦ elim (read_u16 d1) [
        | none ↦ none
        | some (dns_class, d2) ↦ elim (read_u32 d2) [
          | none ↦ none
          | some (ttl, d3) ↦ elim (read_u16 d3) [
            | none ↦ none
            | some (size, d4) ↦ elim (read_slice size d4) [
              | none ↦ none
              | some (data_, d5) ↦ some (kind, data_, d5)
            ]
          ]
        ]
      ]
    ]
  ]

  -- A record's data, if it is an OPT record.
  unfoldable pub check_record : ℕ → ℕ → ℕ → Bytes → Checked (ℕ × ℕ)
  check_record ecs padding kind data_ = elim (kind == 41) [
    | false ↦ passed (ecs, padding)
    | true ↦ check_options (suc (length data_)) ecs padding (new data_)
  ]

  -- The loop over the records.
  unfoldable pub check_records : ℕ → ℕ → ℕ → Reader → Checked (ℕ × ℕ)
  check_records zero ecs padding d = passed (ecs, padding)
  check_records (suc records) ecs padding d = elim (read_record d) [
    | none ↦ refused
    | some (kind, data_, d') ↦ elim (check_record ecs padding kind data_) [
      | refused ↦ refused
      | spent ↦ spent
      | passed (ecs', padding') ↦ check_records records ecs' padding' d'
    ]
  ]

  unfoldable pub read_queries : ℕ → Reader → Option Reader
  read_queries zero d = some d
  read_queries (suc queries) d = elim (read_query d) [
    | none ↦ none
    | some d' ↦ read_queries queries d'
  ]

  abbrev pub records_of : HeaderCounts → ℕ
  records_of c = c.answers + c.authorities + c.additionals

  -- `validate_wire`.
  unfoldable pub validate_wire : Bytes → Checked (ℕ × ℕ)
  validate_wire bytes = elim (read_header (new bytes)) [
    | none ↦ refused
    | some (counts, d) ↦ elim (read_queries counts.queries d) [
      | none ↦ refused
      | some d' ↦ check_records (records_of counts) 0 0 d'
    ]
  ]
