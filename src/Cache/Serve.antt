-- ===== src/Cache/Serve.antt =====
-- cache.rs, `Cache::lookup_inner`: the entry that answers a query, under the lock of its shard.
use pari_ns.Prelude.{ℕ, ◌+◌, Bool, false, not, Option, none, some, ◌&&◌, ◌==◌, if◌then◌else◌}
use pari_ns.Prelude.Assoc.{lookup}
use pari_ns.Net.{IpNet}
use pari_ns.Ecs.Scope.{Subnet}
use pari_ns.Cache.Select.{Entry, is_failure, is_fresh, select}
use pari_ns.Cache.Lru.{LruCache}
use pari_ns.Cache.Shard.{Cached, Counts, flag, update, Shard, is_learned, prune, hold}

module _ (ip : IpNet) {K W : Type 0} (dec : Discrete K) (lru_cache : LruCache (Cached ip K W)) where
  open lru_cache use {peek, promote}

  abbrev State : Type 0
  State = Shard ip dec lru_cache

  -- What a lookup finds: the entry, which the caller then holds, or nothing.
  pub record Found : Type 0 where
    pub entry : Option (Cached ip K W)
    pub shard : State

  -- The counters of an observed hit.
  unfoldable pub count_hit : Bool → Entry ip → Counts → Counts
  count_hit is_new e n = record n {
    hits = n.hits + flag is_new;
    stale_hits = n.stale_hits + flag (not is_new);
    shared_hits = n.shared_hits + flag (is_learned ip dec lru_cache e.scope);
    failure_hits = n.failure_hits + flag (is_failure ip e.failure);
  }

  -- An observed hit: the entry is used now, and a waiting refresh is settled.
  unfoldable pub touch : Bool → ℕ → Cached ip K W → ℕ → State → State
  touch part id c now st =
      let is_new = is_fresh ip now c.fixed in
      record st {
        clock = st.clock + 1;
        partitions =
            update part (record (st.partitions part) { lru = promote id (st.partitions part).lru })
              st.partitions;
        accessed = λ i. if i == id then st.clock + 1 else st.accessed i;
        counts = count_hit is_new c.fixed st.counts;
        refreshed = λ i. if i == id then false else st.refreshed i;
        refresh_useful = st.refresh_useful + flag (st.refreshed id && is_new);
        refresh_unused = st.refresh_unused + flag (st.refreshed id && not is_new);
      }

  -- `Cache::lookup_inner` under the lock; `none` is a panic.
  unfoldable pub lookup_locked : K → Option Subnet → ℕ → Bool → Bool → State → Option Found
  lookup_locked key outgoing now allow_stale is_observed st =
      elim (select ip (lookup dec key st.buckets) outgoing now allow_stale) [
        | none ↦
            if is_observed
            then elim (prune ip dec lru_cache key now st) [
              | none ↦ none
              | some st' ↦ some (record {
                entry = none;
                shard = record st' {
                  counts = record st'.counts {
                    misses = st'.counts.misses + flag (not allow_stale);
                  };
                };
              })
            ]
            else some (record { entry = none; shard = st })
        | some (part, id) ↦ elim (peek id (st.partitions part).lru) [
          | none ↦ none
          | some c ↦ some (record {
            entry = some c;
            shard =
                hold ip dec lru_cache part id (if is_observed then touch part id c now st else st);
          })
        ]
      ]
