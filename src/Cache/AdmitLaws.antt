-- ===== src/Cache/AdmitLaws.antt =====
-- cache.rs, `Cache::admit`: totality, and what a later lookup finds.
use pari_ns.Prelude.{
  ℕ, ◌≡◌, refl, ◌⊎◌, inl, inr, true, false, not, ◌&&◌, ◌==◌, Option, some, arith, Bool-cases,
  Option-cases,
}
use pari_ns.Net.{IpNet}
use pari_ns.Ecs.Scope.{Scope}
use pari_ns.Cache.Decision.{
  epoch_changed, policy_disabled, unsupported_edns, uncacheable_response, StoreDecision,
  is_admitted, skip,
}
use pari_ns.Cache.Lru.{LruCache}
use pari_ns.Cache.Shard.{Cached, Shard, flag}
use pari_ns.Cache.Admit.{Layout}
use pari_ns.Cache.Store.{
  Prepared, Origin, Sharing, StoreConfig, Request, Locked, is_restore, observed, lifetime_of,
  cut_lifetime, classify, admit_locked, admit, count_rejection,
}
use pari_ns.Cache.Consistent.{IsShard, Reduced, Reduced-refl, Reduced-trans}
use pari_ns.Cache.Sweep.{prune_lem}
use pari_ns.Cache.Admission.{Decided, stay, after, classified_lem}

module _ (ip : IpNet) {K W : Type 0} (dec : Discrete K) (lru_cache : LruCache (Cached ip K W))
    {F : Type 0} (layout : Layout K W) (sharing : Sharing ip K F) where
  abbrev LockedShard : Type 0
  LockedShard = Locked ip dec lru_cache layout sharing

  abbrev State : Type 0
  State = Shard ip dec lru_cache

  -- Classification changes no entry, and keeps the scope of a restored record, or where answers
  -- are not shared.
  classify_lem :
      (c : StoreConfig) (origin : Origin) (key : K) (sc : Scope ip) (print : Option F)
      (p : Prepared W) (now : ℕ) (l : LockedShard)
      → IsShard ip dec lru_cache l.shard
      → (seen : Scope ip) × (l' : LockedShard) × (classify ip dec lru_cache layout sharing c origin
            key sc print p now l
          ≡ (seen, l'))
        × IsShard ip dec lru_cache l'.shard
        × Reduced ip dec lru_cache l.shard l'.shard
        × ((seen ≡ sc)
            ⊎ ((c.sharing_enabled && not (is_restore ip dec lru_cache layout sharing origin))
                ≡ true))
  unfolding classify
  classify_lem c origin key sc print p now l w =
      elim (Bool-cases
        (c.sharing_enabled && not (is_restore ip dec lru_cache layout sharing origin))) [
          | inr off ↦
              (sc, l, rw (off, classify) refl, w, Reduced-refl ip dec lru_cache l.shard, inl refl)
          | inl on ↦
              let o =
                sharing.observe key sc print (lifetime_of ip dec lru_cache layout sharing p) now
                  l.table in
              (
                o.0,
                (observed ip dec lru_cache layout sharing l o).1,
                rw (on, classify) refl,
                w,
                Reduced-refl ip dec lru_cache l.shard,
                inr on,
              )
        ]

  -- What an admission comes to under the lock, for the scope that classification chose.
  abbrev pub Settled :
      StoreConfig
      → Request K W F
      → Origin
      → K
      → Scope ip
      → ℕ
      → State
      → Option (StoreDecision × LockedShard)
      → Type 0
  Settled c req origin key sc now st r =
      (seen : Scope ip) × ((seen ≡ sc)
        ⊎ ((c.sharing_enabled && not (is_restore ip dec lru_cache layout sharing origin)) ≡ true))
      × Decided ip dec lru_cache layout sharing c req origin key seen now st r

  locked_lem :
      (c : StoreConfig) (req : Request K W F) (origin : Origin) (key : K) (sc : Scope ip)
      (now epoch current : ℕ) (l : LockedShard)
      → IsShard ip dec lru_cache l.shard
      → Settled c req origin key sc now l.shard
          (admit_locked ip dec lru_cache layout sharing c req origin key sc now epoch current l)
  unfolding admit_locked
  locked_lem c req origin key sc now epoch current l w = elim (Bool-cases (epoch == current)) [
    | inr other ↦
        rw (other, admit_locked)
          (
            sc,
            inl refl,
            stay ip dec lru_cache layout sharing c req origin key sc now epoch_changed l.shard
                (count_rejection ip dec lru_cache layout sharing
                  (flag (not (is_restore ip dec lru_cache layout sharing origin))) l)
                w (Reduced-refl ip dec lru_cache l.shard),
          )
    | inl same ↦
        let (st1, run, w1, less, _) = prune_lem ip dec lru_cache key now l.shard w in
        let p = cut_lifetime ip dec lru_cache layout sharing origin req.prepared in
        let (seen, l2, sort, w2, less2, keeps) =
          classify_lem c origin key sc req.fingerprint p now (record l { shard = st1 }) w1 in
        rw (same, admit_locked, run, sort)
          (
            seen,
            keeps,
            after ip dec lru_cache layout sharing c req origin key seen now l.shard l2.shard _
                (Reduced-trans ip dec lru_cache l.shard st1 l2.shard less less2)
                (classified_lem ip dec lru_cache layout sharing c req origin key seen p now l2 refl
                  w2),
          )
  ]

  reaches_lock :
      (c : StoreConfig) (req : Request K W F) (origin : Origin) (key : K) (sc : Scope ip)
      (now epoch current : ℕ) (l : LockedShard)
      → req.key ≡ some key
      → req.bypass ≡ false
      → req.superseding ≡ true
      → req.complete ≡ true
      → admit ip dec lru_cache layout sharing c req origin sc now epoch current l
        ≡ admit_locked ip dec lru_cache layout sharing c req origin key sc now epoch current l
  unfolding admit
  reaches_lock c req origin key sc now epoch current l q b s k = ground arith

  -- What an admission comes to: a refusal before the lock changes nothing, and what the lock
  -- decides is settled for the key.
  abbrev pub Outcome :
      StoreConfig
      → Request K W F
      → Origin
      → Scope ip
      → ℕ
      → LockedShard
      → Option (StoreDecision × LockedShard)
      → Type 0
  Outcome c req origin sc now l r =
      ((d : StoreDecision) × (r ≡ some (d, l)) × (is_admitted d ≡ false))
      ⊎ ((key : K) × (req.key ≡ some key) × Settled c req origin key sc now l.shard r)

  -- An admission to a consistent shard always comes to a decision, without a panic, and leaves the
  -- shard consistent. The decision is a refusal that adds nothing, or the answer was prepared with
  -- a lifetime and is published after every entry of its key that overlaps its scope was removed.
  pub admit_total :
      (c : StoreConfig) (req : Request K W F) (origin : Origin) (sc : Scope ip)
      (now epoch current : ℕ) (l : LockedShard)
      → IsShard ip dec lru_cache l.shard
      → Outcome c req origin sc now l
          (admit ip dec lru_cache layout sharing c req origin sc now epoch current l)
  unfolding admit is_admitted skip
  admit_total c req origin sc now epoch current l w = elim (Option-cases req.key) [
    | inl q ↦ rw (q, admit) (inl (skip req.rejection, refl, refl))
    | inr (key, q) ↦ elim (Bool-cases req.bypass) [
      | inl b ↦ rw (q, admit, b) (inl (skip policy_disabled, refl, refl))
      | inr b ↦ elim (Bool-cases req.superseding) [
        | inr s ↦ rw (q, admit, b, s) (inl (skip unsupported_edns, refl, refl))
        | inl s ↦ elim (Bool-cases req.complete) [
          | inr k ↦ rw (q, admit, b, s, k) (inl (skip uncacheable_response, refl, refl))
          | inl k ↦ inr (
            key,
            q,
            rw (reaches_lock c req origin key sc now epoch current l q b s k)
                (locked_lem c req origin key sc now epoch current l w),
          )
        ]
      ]
    ]
  ]
