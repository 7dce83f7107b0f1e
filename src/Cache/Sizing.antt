-- ===== src/Cache/Sizing.antt =====
-- cache.rs, `Cache::new`: how the entries and bytes of a configuration are shared out. The fields
-- are those that this code reads; with validated settings no product leaves 64 bits.
use pari_ns.Prelude.{
  ℕ, zero, suc, ◌+◌, ◌-◌, ◌*◌, ◌/◌, ◌%◌, min, max, List, [], ◌∷◌, ltb, ◌==◌, if◌then◌else◌,
}

pub record CacheConfig : Type 0 where
  pub max_entries : ℕ
  pub max_bytes : ℕ
  pub shards : ℕ
  pub negative_percent : ℕ

abbrev pub usize_max : ℕ
usize_max = 0xffff_ffff_ffff_ffff

unfoldable pub negative_entries : CacheConfig → ℕ
negative_entries c = c.max_entries * c.negative_percent / 100

abbrev pub positive_entries : CacheConfig → ℕ
positive_entries c = c.max_entries - negative_entries c

unfoldable pub negative_bytes : CacheConfig → ℕ
negative_bytes c = if negative_entries c == 0 then 0 else c.max_bytes * c.negative_percent / 100

abbrev pub positive_bytes : CacheConfig → ℕ
positive_bytes c = c.max_bytes - negative_bytes c

-- The number of shards.
unfoldable pub shard_count : CacheConfig → ℕ
shard_count c =
    max
      (min
        (min
          (min (min c.shards (max (positive_entries c) 1))
            (if negative_entries c == 0 then usize_max else negative_entries c))
          (max (positive_bytes c / 1024) 1))
        (if negative_entries c == 0 then usize_max else max (negative_bytes c / 1024) 1))
      1

-- The part of a total that the shard `i` gets.
unfoldable pub portion : ℕ → ℕ → ℕ → ℕ
portion count total i = total / count + (if ltb i (total % count) then 1 else 0)

-- The budgets of a shard's two partitions.
pub record Budgets : Type 0 where
  pub positive_max_entries : ℕ
  pub positive_max_bytes : ℕ
  pub negative_max_entries : ℕ
  pub negative_max_bytes : ℕ

unfoldable pub budgets_of : CacheConfig → ℕ → ℕ → Budgets
budgets_of c count i = record {
  positive_max_entries = portion count (positive_entries c) i;
  positive_max_bytes = portion count (positive_bytes c) i;
  negative_max_entries = portion count (negative_entries c) i;
  negative_max_bytes = portion count (negative_bytes c) i;
}

-- The shards from `i` on.
unfoldable pub budgets_from : CacheConfig → ℕ → ℕ → ℕ → List Budgets
budgets_from c count i zero = []
budgets_from c count i (suc n) = budgets_of c count i ∷ budgets_from c count (suc i) n

unfoldable pub new_budgets : CacheConfig → List Budgets
new_budgets c = budgets_from c (shard_count c) 0 (shard_count c)

abbrev pub total_of : (Budgets → ℕ) → List Budgets → ℕ
total_of part [] = 0
total_of part (b ∷ bs) = part b + total_of part bs
