-- ===== src/Cache/Shares.antt =====
-- cache.rs, `Cache::new`: the shares of the shards.
use native.Mathlib.Nat.{div-add-mod, mod-lt, le-div_iff_mul-le, mul-le-mul_left}
use pari_ns.Prelude.{
  ℕ, zero, suc, ◌+◌, ◌-◌, ◌*◌, ◌/◌, ◌%◌, ◌≤◌, min, max, ◌≡◌, refl, ◌∙◌, ◌⊎◌, inl, inr, arith, ltb,
  ◌==◌, length, All, Bool-cases, ltb→lt,
}
use pari_ns.Cache.Sizing.{
  CacheConfig, negative_entries, positive_entries, negative_bytes, positive_bytes, shard_count,
  portion, Budgets, budgets_of, budgets_from, new_budgets, total_of,
}

unfoldable portions : ℕ → ℕ → ℕ → ℕ → ℕ
portions count total i zero = 0
portions count total i (suc n) = portion count total i + portions count total (suc i) n

portions_lem :
    (count total i n : ℕ)
    → portions count total i n
      ≡ n * (total / count) + (min (i + n) (total % count) - min i (total % count))
unfolding portions portion
portions_lem count total i zero = omega arith
portions_lem count total i (suc n) =
    let rest = portions_lem count total (suc i) n in
    elim (Bool-cases (ltb i (total % count))) [
      | inl h ↦ rw h (omega (arith, rest, ltb→lt i (total % count) h))
      | inr h ↦ let k : total % count ≤ i = ground arith in rw h (omega (arith, rest, k))
    ]

-- The portions of all shards make the total.
portions_total : (count total : ℕ) → 1 ≤ count → portions count total 0 count ≡ total
portions_total count total h =
    omega (arith, portions_lem count total 0 count, div-add-mod total count, mod-lt total h)

-- A total of at least one for each shard leaves none without.
portion_positive : (count total i : ℕ) → 1 ≤ count → count ≤ total → 1 ≤ portion count total i
unfolding portion
portion_positive count total i h k =
    omega (arith, (le-div_iff_mul-le {k = count} {x = 1} {y = total} h).1 (omega (arith, k)))

total_lem :
    (c : CacheConfig) (count total : ℕ) (part : Budgets → ℕ)
    → ((i : ℕ) → part (budgets_of c count i) ≡ portion count total i)
    → (i n : ℕ) → total_of part (budgets_from c count i n) ≡ portions count total i n
unfolding budgets_from portions
total_lem c count total part h i zero = refl
total_lem c count total part h i (suc n) =
    omega (arith, h i, total_lem c count total part h (suc i) n)

shard_count_positive : (c : CacheConfig) → 1 ≤ shard_count c
unfolding shard_count
shard_count_positive c = omega arith

new_total :
    (c : CacheConfig) (total : ℕ) (part : Budgets → ℕ)
    → ((i : ℕ) → part (budgets_of c (shard_count c) i) ≡ portion (shard_count c) total i)
    → total_of part (new_budgets c) ≡ total
unfolding new_budgets
new_total c total part h =
    total_lem c (shard_count c) total part h 0 (shard_count c)
    ∙ portions_total (shard_count c) total (shard_count_positive c)

percent_le : (x p : ℕ) → p ≤ 100 → x * p / 100 ≤ x
percent_le x p h = let k : x * p ≤ x * 100 = mul-le-mul_left x h in omega (arith, k)

negative_entries-le :
    (c : CacheConfig) → c.negative_percent ≤ 100 → negative_entries c ≤ c.max_entries
unfolding negative_entries
negative_entries-le c h = percent_le c.max_entries c.negative_percent h

negative_bytes-le : (c : CacheConfig) → c.negative_percent ≤ 100 → negative_bytes c ≤ c.max_bytes
unfolding negative_bytes
negative_bytes-le c h = ground (arith, percent_le c.max_bytes c.negative_percent h)

-- The shares of all shards make up the configured budgets exactly, in entries and in bytes, if at
-- most a hundred percent are for negative answers.
new_budgets_total :
    (c : CacheConfig)
    → c.negative_percent ≤ 100
    → (total_of (λ b. b.positive_max_entries) (new_budgets c)
          + total_of (λ b. b.negative_max_entries) (new_budgets c)
        ≡ c.max_entries)
      × (total_of (λ b. b.positive_max_bytes) (new_budgets c)
            + total_of (λ b. b.negative_max_bytes) (new_budgets c)
          ≡ c.max_bytes)
unfolding budgets_of
new_budgets_total c h =
    (omega (arith, a, b, negative_entries-le c h), omega (arith, d, e, negative_bytes-le c h))
  where
    a : total_of (λ b. b.positive_max_entries) (new_budgets c) ≡ positive_entries c
    a = new_total c (positive_entries c) (λ b. b.positive_max_entries) (λ i. refl)

    b : total_of (λ b. b.negative_max_entries) (new_budgets c) ≡ negative_entries c
    b = new_total c (negative_entries c) (λ b. b.negative_max_entries) (λ i. refl)

    d : total_of (λ b. b.positive_max_bytes) (new_budgets c) ≡ positive_bytes c
    d = new_total c (positive_bytes c) (λ b. b.positive_max_bytes) (λ i. refl)

    e : total_of (λ b. b.negative_max_bytes) (new_budgets c) ≡ negative_bytes c
    e = new_total c (negative_bytes c) (λ b. b.negative_max_bytes) (λ i. refl)

All-budgets :
    (c : CacheConfig) (count : ℕ) (P : Budgets → Type 0)
    → ((i : ℕ) → P (budgets_of c count i))
    → (i n : ℕ) → All P (budgets_from c count i n)
unfolding budgets_from
All-budgets c count P h i zero = tt
All-budgets c count P h i (suc n) = (h i, All-budgets c count P h (suc i) n)

length-budgets_from : (c : CacheConfig) (count i n : ℕ) → length (budgets_from c count i n) ≡ n
unfolding budgets_from
length-budgets_from c count i zero = refl
length-budgets_from c count i (suc n) = omega (arith, length-budgets_from c count (suc i) n)

-- Shards that are at most one for each 1024 bytes of a total, or one alone, get 1024 bytes each, or
-- all of them.
portion_bytes :
    (count total i : ℕ)
    → 1 ≤ count
    → count ≤ max (total / 1024) 1
    → min 1024 total ≤ portion count total i
unfolding portion
portion_bytes count total i h k = elim (Bool-cases (ltb total 1024)) [
  | inl few ↦
      let one : count ≡ 1 = ground (arith, few) in
      let all : total / 1 ≡ total = omega arith in rw one (omega (arith, all))
  | inr many ↦
      let enough : 1024 * count ≤ total = ground (arith, many, k) in
      omega (arith, (le-div_iff_mul-le {k = count} {x = 1024} {y = total} h).1 enough)
]

-- How many shards there are at most.
record IsShared (c : CacheConfig) : Type 0 where
  few : shard_count c ≤ c.shards
  entries : shard_count c ≤ positive_entries c
  bytes : shard_count c ≤ max (positive_bytes c / 1024) 1
  negative :
      (negative_entries c ≡ 0)
      ⊎ ((shard_count c ≤ negative_entries c) × (shard_count c ≤ max (negative_bytes c / 1024) 1))

shard_count-IsShared : (c : CacheConfig) → 1 ≤ c.shards → 1 ≤ positive_entries c → IsShared c
unfolding shard_count
shard_count-IsShared c h k = elim (Bool-cases (negative_entries c == 0)) [
  | inl none_ ↦ record {
    few = ground arith;
    entries = ground arith;
    bytes = ground arith;
    negative = inl (ground arith);
  }
  | inr some_ ↦ record {
    few = ground arith;
    entries = ground arith;
    bytes = ground arith;
    negative = inr (ground arith, ground arith);
  }
]

positive_lem :
    (c : CacheConfig) → 1 ≤ c.max_entries → c.negative_percent ≤ 90 → 1 ≤ positive_entries c
unfolding negative_entries
positive_lem c h p =
    let q : c.max_entries * c.negative_percent ≤ c.max_entries * 90 = mul-le-mul_left _ p in
    omega (arith, q)

-- What a shard gets at least: an entry for positive answers, and 1024 bytes for them or else all
-- their bytes; the same for negative answers, unless no entry at all is for those.
pub record IsUsable (c : CacheConfig) (b : Budgets) : Type 0 where
  pub entries : 1 ≤ b.positive_max_entries
  pub bytes : min 1024 (positive_bytes c) ≤ b.positive_max_bytes
  pub negative :
      (negative_entries c ≡ 0)
      ⊎ ((1 ≤ b.negative_max_entries) × (min 1024 (negative_bytes c) ≤ b.negative_max_bytes))

-- With settings of at least one entry and one shard, and at most 90 percent for negative answers:
-- there is at least one shard and at most as many as configured; every shard has at least one entry
-- for positive answers, and of their bytes at least 1024 or all that there are; and the same holds
-- of negative answers, unless no entry at all is for those.
pub new_budgets-IsUsable :
    (c : CacheConfig)
    → 1 ≤ c.max_entries
    → 1 ≤ c.shards
    → c.negative_percent ≤ 90
    → (1 ≤ length (new_budgets c))
      × (length (new_budgets c) ≤ c.shards)
      × All (λ b. IsUsable c b) (new_budgets c)
unfolding new_budgets budgets_of
new_budgets-IsUsable c h k p =
    let shared = shard_count-IsShared c k (positive_lem c h p) in
    (
      omega (arith, length-budgets_from c (shard_count c) 0 (shard_count c), some_),
      omega (arith, length-budgets_from c (shard_count c) 0 (shard_count c), shared.few),
      All-budgets c (shard_count c) _
          (λ i. record {
            entries = portion_positive _ (positive_entries c) i some_ shared.entries;
            bytes = portion_bytes _ (positive_bytes c) i some_ shared.bytes;
            negative = elim shared.negative [
              | inl q ↦ inl q
              | inr (q, r) ↦ inr (
                portion_positive _ (negative_entries c) i some_ q,
                portion_bytes _ (negative_bytes c) i some_ r,
              )
            ];
          })
          0 (shard_count c),
    )
  where
    some_ : 1 ≤ shard_count c
    some_ = shard_count_positive c
