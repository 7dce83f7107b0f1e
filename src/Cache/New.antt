-- ===== src/Cache/New.antt =====
-- cache.rs, `Partition::new` and the shards of `Cache::new`.
use pari_ns.Prelude.{ℕ, ◌≡◌, refl, sym, ◌∙◌, Bool, true, false, none, some, [], arith, count}
use pari_ns.Prelude.Assoc.{lookup}
use pari_ns.Prelude.Tally.{tally}
use pari_ns.Net.{IpNet}
use pari_ns.Cache.Lru.{LruCache}
use pari_ns.Cache.Shard.{Cached, Counts, Partition, Shard}
use pari_ns.Cache.Sizing.{Budgets}
use pari_ns.Cache.Partition.{IsPartition}
use pari_ns.Cache.Consistent.{IsShard}

module _ (ip : IpNet) {K W : Type 0} (dec : Discrete K) (lru_cache : LruCache (Cached ip K W)) where
  open lru_cache use {unbounded, unbounded_iter, iter, len, peek, len_iter, peek_iter}

  -- `Partition::new`.
  abbrev pub new_partition : ℕ → ℕ → Partition ip dec lru_cache
  new_partition max_entries max_bytes = record {
    lru = unbounded;
    charged = 0;
    max_entries = max_entries;
    max_bytes = max_bytes;
    evictions = λ reason state. 0;
    held = [];
    orphans = [];
  }

  abbrev no_counts : Counts
  no_counts = record {
    hits = 0;
    stale_hits = 0;
    misses = 0;
    evictions = 0;
    rejections = 0;
    shared_hits = 0;
    revocations = 0;
    failure_hits = 0;
  }

  -- A shard of `Cache::new` with its part of the budget.
  abbrev pub new_shard : Budgets → Shard ip dec lru_cache
  new_shard b = record {
    buckets = [];
    partitions = λ negative. elim negative [
      | true ↦ new_partition b.negative_max_entries b.negative_max_bytes
      | false ↦ new_partition b.positive_max_entries b.positive_max_bytes
    ];
    clock = 0;
    counts = no_counts;
    learned_entries = 0;
    failures = 0;
    accessed = λ id. 0;
    refreshed = λ id. false;
    refresh_useful = 0;
    refresh_unused = 0;
  }

  new_partition-IsPartition :
      (part : Bool) (max_entries max_bytes : ℕ)
      → IsPartition ip dec lru_cache 0 part (new_partition max_entries max_bytes)
  unfolding lookup count tally
  new_partition-IsPartition part max_entries max_bytes = record {
    filed = λ id c h. absurd (clash (sym (empty_peek id) ∙ h));
    orphaned = λ id c h. absurd (clash h);
    once = λ id. rw unbounded_iter (omega arith);
    exact = rw unbounded_iter refl;
    sized = rw (len_iter unbounded, unbounded_iter) (omega arith);
    within = omega arith;
  }
    where
      clash : {A : Type 0} {a : A} → none ≡ some a → ⊥
      clash h = cc

      empty_peek : (id : ℕ) → peek id unbounded ≡ none
      empty_peek id = rw (peek_iter id unbounded, unbounded_iter) refl

  -- The shards of a new cache are consistent, whatever budget they get: each partition is within its
  -- limits, and all counters agree with what is held.
  pub new_shard-IsShard : (b : Budgets) → IsShard ip dec lru_cache (new_shard b)
  unfolding lookup tally
  new_shard-IsShard b = record {
    parts = λ negative. parts_lem negative;
    present = λ k e m. elim m [ ];
    learned_exact = rw unbounded_iter refl;
    failures_exact = rw unbounded_iter refl;
  }
    where
      parts_lem :
          (negative : Bool)
          → IsPartition ip dec lru_cache 0 negative ((new_shard b).partitions negative)
      parts_lem true = new_partition-IsPartition true b.negative_max_entries b.negative_max_bytes
      parts_lem false = new_partition-IsPartition false b.positive_max_entries b.positive_max_bytes
