-- ===== src/Ecs/Decoder.antt =====
-- What ecs.rs relies on of the DNS library's `BinDecoder`, and of the readers of a header, a query
-- and a name: `rest` is what is not read yet. A number has its most significant byte first, and a
-- reader that fails is none. How long a header, a query and a name are is the library's.
use pari_ns.Prelude.{ℕ, ◌+◌, ◌*◌, ◌≡◌, Bool, true, false, Option, some, List, [], ◌∷◌, ◌++◌, length}

abbrev pub Bytes : Type 0
Bytes = List ℕ

pub record HeaderCounts : Type 0 where
  pub queries : ℕ
  pub answers : ℕ
  pub authorities : ℕ
  pub additionals : ℕ

pub record Decoder : Type 1 where
  pub Reader : Type 0
  pub new : Bytes → Reader
  pub rest : Reader → Bytes
  pub is_empty : Reader → Bool
  pub read_u16 : Reader → Option (ℕ × Reader)
  pub read_u32 : Reader → Option (ℕ × Reader)
  pub read_slice : ℕ → Reader → Option (Bytes × Reader)
  pub read_header : Reader → Option (HeaderCounts × Reader)
  pub read_query : Reader → Option Reader
  pub read_name : Reader → Option Reader
  pub rest_new : (bytes : Bytes) → rest (new bytes) ≡ bytes
  pub rest_empty : (d : Reader) → is_empty d ≡ true → rest d ≡ []
  pub rest_u16 :
      (d : Reader) (n : ℕ) (d' : Reader)
      → read_u16 d ≡ some (n, d')
      → (a : ℕ) × (b : ℕ) × (rest d ≡ a ∷ b ∷ rest d') × (n ≡ a * 256 + b)
  pub rest_u32 :
      (d : Reader) (n : ℕ) (d' : Reader)
      → read_u32 d ≡ some (n, d')
      → (bytes : Bytes) × (rest d ≡ bytes ++ rest d') × (length bytes ≡ 4)
  pub rest_slice :
      (n : ℕ) (d : Reader) (data_ : Bytes) (d' : Reader)
      → read_slice n d ≡ some (data_, d')
      → (rest d ≡ data_ ++ rest d') × (length data_ ≡ n)
  pub read_u16_of :
      (d : Reader) (a b : ℕ) (bytes : Bytes)
      → rest d ≡ a ∷ b ∷ bytes
      → (d' : Reader) × (read_u16 d ≡ some (a * 256 + b, d')) × (rest d' ≡ bytes)
  pub read_slice_of :
      (d : Reader) (data_ bytes : Bytes)
      → rest d ≡ data_ ++ bytes
      → (d' : Reader) × (read_slice (length data_) d ≡ some (data_, d')) × (rest d' ≡ bytes)
  pub rest_more : (d : Reader) (a : ℕ) (bytes : Bytes) → rest d ≡ a ∷ bytes → is_empty d ≡ false
  pub rest_nil : (d : Reader) → rest d ≡ [] → is_empty d ≡ true
