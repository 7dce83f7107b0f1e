-- ===== src/Cache/Failing.antt =====
-- cache.rs, `Cache::admit_failure`: a SERVFAIL that is kept for a while.
use pari_ns.Prelude.{
  List, [], ◌∷◌, Bool, ℕ, ◌*◌, min, true, false, not, Option, none, some, ◌&&◌, ◌||◌, ◌==◌,
  if◌then◌else◌,
}
use pari_ns.Net.{IpNet}
use pari_ns.Ecs.Scope.{Scope}
use pari_ns.Sharing.Samples.{retain}
use pari_ns.Cache.Decision.{epoch_changed, uncacheable_response, policy_disabled, skip}
use pari_ns.Cache.Select.{Entry, Failure, is_failure, is_fresh}
use pari_ns.Cache.Lru.{LruCache}
use pari_ns.Cache.Shard.{Cached, Shard, remove_all, prune}
use pari_ns.Cache.Admit.{Layout, Stored, place}
use pari_ns.Cache.Store.{
  Sharing, StoreConfig, Request, Locked, Result, second, overlapping, is_nonempty, with_shard,
  count_rejection,
}

module _ (ip : IpNet) {K W : Type 0} (dec : Discrete K) (lru_cache : LruCache (Cached ip K W))
    {F : Type 0} (layout : Layout K W) (sharing : Sharing ip K F) where
  abbrev LockedShard : Type 0
  LockedShard = Locked ip dec lru_cache layout sharing

  -- The failures of a bucket, which are all negative.
  abbrev pub negative_places : List (Entry ip) → List (Bool × ℕ)
  negative_places [] = []
  negative_places (e ∷ es) = (true, e.id) ∷ negative_places es

  -- A failure is refused by a fresh answer that overlaps it, and replaces the failures that do.
  unfoldable pub replace_failures :
      StoreConfig
      → K
      → Stored ip W
      → ℕ
      → LockedShard
      → Shard ip dec lru_cache
      → Result ip dec lru_cache layout sharing
  replace_failures c key stored now l st =
      let old = overlapping ip dec lru_cache layout sharing key stored.scope st in
      let failed = retain (λ (e : Entry ip). is_failure ip e.failure) old in
      if is_nonempty ip dec lru_cache layout sharing
        (retain (λ (e : Entry ip). not (is_failure ip e.failure) && is_fresh ip now e) old)
      then some (skip uncacheable_response, record l { shard = st })
      else elim (remove_all ip dec lru_cache (negative_places failed) st) [
        | none ↦ none
        | some st' ↦ with_shard ip dec lru_cache layout sharing l.table (
            place ip dec lru_cache layout c.max_variants key stored now
              (is_nonempty ip dec lru_cache layout sharing failed) st')
      ]

  unfoldable pub stored_failure : Failure → Scope ip → W → ℕ → Stored ip W
  stored_failure failure sc w lifetime = record {
    wire = w;
    scope = sc;
    lifetime = lifetime * second;
    retention = lifetime * second;
    negative = true;
    failure = some failure;
    prefetch = false;
    refreshed = false;
    accessed = none;
  }

  unfoldable pub admit_failure_locked :
      StoreConfig
      → K
      → Stored ip W
      → ℕ
      → ℕ
      → ℕ
      → LockedShard
      → Result ip dec lru_cache layout sharing
  admit_failure_locked c key stored now epoch current l =
      if not (epoch == current)
      then some (skip epoch_changed, count_rejection ip dec lru_cache layout sharing 1 l)
      else elim (prune ip dec lru_cache key now l.shard) [
        | none ↦ none
        | some st ↦ replace_failures c key stored now l st
      ]

  -- `Cache::admit_failure`; `w` is the encoded SERVFAIL, none where it could not be encoded.
  unfoldable pub admit_failure :
      StoreConfig
      → Request K W F
      → Failure
      → Option W
      → Scope ip
      → ℕ
      → ℕ
      → ℕ
      → LockedShard
      → Result ip dec lru_cache layout sharing
  admit_failure c req failure w sc now epoch current l = elim req.key [
    | none ↦ some (skip req.rejection, l)
    | some key ↦
        if req.bypass
        then some (skip policy_disabled, l)
        else if not req.complete
            || not req.superseding
            || min c.servfail_ttl req.negative_ttl_cap == 0
        then some (skip uncacheable_response, l)
        else elim w [
          | none ↦ some (skip uncacheable_response, l)
          | some w ↦
              admit_failure_locked c key
                (stored_failure failure sc w (min c.servfail_ttl req.negative_ttl_cap)) now epoch
                current l
        ]
  ]
