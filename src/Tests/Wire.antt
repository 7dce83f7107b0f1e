-- ===== src/Tests/Wire.antt =====
-- The wire of messages, with a decoder that reads root names alone.
use pari_ns.Prelude.{
  ℕ, zero, suc, ◌+◌, ◌*◌, ◌≡◌, refl, sym, ◌∙◌, ap, Bool, true, false, Option, none, some, some_eq,
  [], ◌∷◌, ◌++◌, arith, length, Option-cases, inl, inr,
}
use pari_ns.Ecs.Decoder.{Bytes, HeaderCounts, Decoder}
use pari_ns.Ecs.Wire.{
  family_bits, is_subnet, passed, refused, check_option, read_option, check_options, read_record,
  check_record, check_records, read_queries, validate_wire,
}
use pari_ns.Ecs.Wire.Sound
use pari_ns.Ecs.Wire.Sound.{Validated}

abbrev u16 : Bytes → Option (ℕ × Bytes)
u16 [] = none
u16 (a ∷ []) = none
u16 (a ∷ b ∷ bytes) = some (a * 256 + b, bytes)

abbrev u32 : Bytes → Option (ℕ × Bytes)
u32 (a ∷ b ∷ c ∷ d ∷ bytes) = some (((a * 256 + b) * 256 + c) * 256 + d, bytes)
u32 _ = none

abbrev head : ℕ → Option (Bytes × Bytes) → Option (Bytes × Bytes)
head b none = none
head b (some (data_, left)) = some (b ∷ data_, left)

unfoldable slice : ℕ → Bytes → Option (Bytes × Bytes)
slice zero bytes = some ([], bytes)
slice (suc n) [] = none
slice (suc n) (b ∷ bytes) = head b (slice n bytes)

abbrev counts_of : Bytes → Option (HeaderCounts × Bytes)
counts_of (a ∷ b ∷ c ∷ d ∷ e ∷ queries ∷ f ∷ answers ∷ g ∷ authorities ∷ h ∷ additionals ∷ bytes) =
    some (
      record {
        queries = queries;
        answers = answers;
        authorities = authorities;
        additionals = additionals;
      },
      bytes,
    )
counts_of _ = none

abbrev root : Bytes → Option Bytes
root (zero ∷ bytes) = some bytes
root _ = none

abbrev root_query : Bytes → Option Bytes
root_query (zero ∷ a ∷ b ∷ c ∷ d ∷ bytes) = some bytes
root_query _ = none

abbrev is_nil : Bytes → Bool
is_nil [] = true
is_nil (b ∷ bytes) = false

is_nil_lem : (d : Bytes) → is_nil d ≡ true → d ≡ []
is_nil_lem [] h = refl
is_nil_lem (b ∷ d) h = cc

u16_lem :
    (d : Bytes) (n : ℕ) (d' : Bytes)
    → u16 d ≡ some (n, d')
    → (a : ℕ) × (b : ℕ) × (d ≡ a ∷ b ∷ d') × (n ≡ a * 256 + b)
u16_lem [] n d' h = cc
u16_lem (a ∷ []) n d' h = cc
u16_lem (a ∷ b ∷ d) n d' h =
    let e = some_eq h in (a, b, ap (λ r. a ∷ b ∷ r.1) e, ap (λ r. r.0) (sym e))

u32_lem :
    (d : Bytes) (n : ℕ) (d' : Bytes)
    → u32 d ≡ some (n, d')
    → (bytes : Bytes) × (d ≡ bytes ++ d') × (length bytes ≡ 4)
u32_lem [] n d' h = cc
u32_lem (a ∷ []) n d' h = cc
u32_lem (a ∷ b ∷ []) n d' h = cc
u32_lem (a ∷ b ∷ c ∷ []) n d' h = cc
u32_lem (a ∷ b ∷ c ∷ e ∷ d) n d' h =
    (a ∷ b ∷ c ∷ e ∷ [], ap (λ r. a ∷ b ∷ c ∷ e ∷ r.1) (some_eq h), refl)

slice_lem :
    (n : ℕ) (d data_ d' : Bytes)
    → slice n d ≡ some (data_, d')
    → (d ≡ data_ ++ d') × (length data_ ≡ n)
unfolding slice
slice_lem zero d data_ d' h =
    let e = some_eq h in (ap (λ r. r.0 ++ r.1) e, ap (λ r. length r.0) (sym e))
slice_lem (suc n) [] data_ d' h = cc
slice_lem (suc n) (b ∷ d) data_ d' h = elim (Option-cases (slice n d)) [
  | inl q ↦ absurd (ground arith)
  | inr ((s, r), q) ↦
      let (e, f) = slice_lem n d s r q in
      let cut : some (b ∷ s, r) ≡ some (data_, d') = rw q at h in
      let same = some_eq cut in
      (ap (λ x. b ∷ x) e ∙ ap (λ x. x.0 ++ x.1) same, ap (λ x. length x.0) (sym same) ∙ ap suc f)
]

u16_of :
    (d : Bytes) (a b : ℕ) (bytes : Bytes)
    → d ≡ a ∷ b ∷ bytes
    → (d' : Bytes) × (u16 d ≡ some (a * 256 + b, d')) × (d' ≡ bytes)
u16_of d a b bytes h = (bytes, ap u16 h, refl)

slice-append : (data_ bytes : Bytes) → slice (length data_) (data_ ++ bytes) ≡ some (data_, bytes)
unfolding slice
slice-append [] bytes = refl
slice-append (b ∷ data_) bytes = ap (head b) (slice-append data_ bytes)

slice_of :
    (d data_ bytes : Bytes)
    → d ≡ data_ ++ bytes
    → (d' : Bytes) × (slice (length data_) d ≡ some (data_, d')) × (d' ≡ bytes)
slice_of d data_ bytes h = (bytes, ap (slice (length data_)) h ∙ slice-append data_ bytes, refl)

decoder : Decoder
decoder = record {
  Reader = Bytes;
  new = λ bytes. bytes;
  rest = λ d. d;
  is_empty = is_nil;
  read_u16 = u16;
  read_u32 = u32;
  read_slice = slice;
  read_header = counts_of;
  read_query = root_query;
  read_name = root;
  rest_new = λ bytes. refl;
  rest_empty = is_nil_lem;
  rest_u16 = u16_lem;
  rest_u32 = u32_lem;
  rest_slice = slice_lem;
  read_u16_of = u16_of;
  read_slice_of = slice_of;
  rest_more = λ d a bytes h. ap is_nil h;
  rest_nil = λ d h. ap is_nil h;
}

-- The header of a message with one query and so many answers and additional records, and the query.
abbrev start : ℕ → ℕ → Bytes
start answers additionals =
    0 ∷ 1 ∷ 0 ∷ 0 ∷ 0 ∷ 1 ∷ 0 ∷ answers ∷ 0 ∷ 0 ∷ 0 ∷ additionals ∷ 0 ∷ 0 ∷ 1 ∷ 0 ∷ 1 ∷ []

-- A record of the root, of a type and with data.
abbrev rr : ℕ → Bytes → Bytes
rr kind data_ = 0 ∷ 0 ∷ kind ∷ 0 ∷ 1 ∷ 0 ∷ 0 ∷ 0 ∷ 9 ∷ 0 ∷ length data_ ∷ data_

-- The client subnet 192.0.2.0/24, a cookie and a padding.
abbrev subnet_option : Bytes
subnet_option = 0 ∷ 8 ∷ 0 ∷ 7 ∷ 0 ∷ 1 ∷ 24 ∷ 0 ∷ 192 ∷ 0 ∷ 2 ∷ []

abbrev cookie : Bytes
cookie = 0 ∷ 10 ∷ 0 ∷ 2 ∷ 1 ∷ 2 ∷ []

abbrev padding : Bytes
padding = 0 ∷ 12 ∷ 0 ∷ 1 ∷ 0 ∷ []

-- An address record, and an OPT record with three options.
abbrev message : Bytes
message = start 1 1 ++ rr 1 (127 ∷ 0 ∷ 0 ∷ 1 ∷ []) ++ rr 41 (subnet_option ++ cookie ++ padding)

program : Unit {0}
unfolding slice decoder family_bits is_subnet check_option read_option check_options read_record
    check_record check_records read_queries validate_wire
program = tt

accepts : validate_wire decoder message ≡ passed (1, 1)
unfolding program
accepts = refl

-- Two OPT records with a padding each.
refuses_second : validate_wire decoder (start 0 2 ++ rr 41 padding ++ rr 41 padding) ≡ refused
unfolding program
refuses_second = refl

-- A record that the header counts is missing.
refuses_short : validate_wire decoder (start 0 2 ++ rr 41 subnet_option) ≡ refused
unfolding program
refuses_short = refl

validate_wire-Validated_example : Validated decoder message (validate_wire decoder message)
validate_wire-Validated_example = Sound.validate_wire-Validated decoder message
