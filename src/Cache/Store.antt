-- ===== src/Cache/Store.antt =====
-- cache.rs: admission of answers under the lock of the shard that owns the key. What is decided before the lock is taken is the request: the key, the
-- policy and the prepared response. The shard's sharing table is an interface.
use pari_ns.Prelude.{
  ℕ, ◌+◌, ◌*◌, min, Bool, true, false, not, Option, none, some, List, [], ◌∷◌, ◌&&◌, ltb, leb, ◌==◌,
  if◌then◌else◌, length,
}
use pari_ns.Prelude.Assoc.{lookup}
use pari_ns.Net.{IpNet}
use pari_ns.Ecs.Scope.{Scope}
use pari_ns.Ecs.Overlap.{scopes_overlap}
use pari_ns.Sharing.Samples.{retain}
use pari_ns.Cache.Decision.{
  DecisionReason, unsupported_edns, capacity, epoch_changed, ttl_zero, uncacheable_response,
  policy_disabled, StoreDecision, skip, reject,
}
use pari_ns.Cache.Select.{Entry}
use pari_ns.Cache.Lru.{LruCache}
use pari_ns.Cache.Shard.{Cached, flag, Shard, bucket, remove_all, prune, places}
use pari_ns.Cache.Admit.{Layout, Stored, charge, place}

-- A response that `prepare_response` accepted, encoded, or the reason against it.
pub data Prepared (W : Type 0) : Type 0 where
  refused : DecisionReason → Prepared W
  prepared : W → ℕ → Bool → Prepared W

-- Where an answer comes from; a restore has the seconds left and the stamp of its last use.
pub data Origin : Type 0 where
  answer refresh : Origin
  restore : ℕ → ℕ → Origin

-- `learned` and `revoked` are what the sharing table makes of the answer.
pub record Sharing (ip : IpNet) (K F : Type 0) : Type 1 where
  pub Table : Type 0
  pub observe : K → Scope ip → Option F → Option ℕ → ℕ → Table → Scope ip × Bool × Table
  pub forget : (K → Bool) → Option (Scope ip) → Table → Table

pub record StoreConfig : Type 0 where
  pub max_variants : ℕ
  pub stale_retention : ℕ
  pub sharing_enabled : Bool
  pub servfail_ttl : ℕ

-- The policy of the key's name and the response's own tests, as `admit` computes them.
pub record Request (K W F : Type 0) : Type 0 where
  pub key : Option K
  pub rejection : DecisionReason
  pub bypass : Bool
  pub stale : Bool
  pub prefetch : Bool
  pub negative_ttl_cap : ℕ
  pub superseding : Bool
  pub complete : Bool
  pub prepared : Prepared W
  pub fingerprint : Option F

abbrev pub second : ℕ
second = 1000000000

module _ (ip : IpNet) {K W : Type 0} (dec : Discrete K) (lru_cache : LruCache (Cached ip K W))
    {F : Type 0} (layout : Layout K W) (sharing : Sharing ip K F) where
  open lru_cache use {len, peek, promote, iter}
  open ip use {net_discrete}
  open sharing use {Table, observe, forget}

  abbrev pub State : Type 0
  State = Shard ip dec lru_cache

  -- A shard with its sharing table.
  pub record Locked : Type 0 where
    pub shard : State
    pub table : Table

  abbrev pub count_rejection : ℕ → Locked → Locked
  count_rejection n l = record l {
    shard = record l.shard {
      counts = record l.shard.counts { rejections = l.shard.counts.rejections + n };
    };
  }

  abbrev pub overlapping : K → Scope ip → State → List (Entry ip)
  overlapping key sc st =
      retain (λ (e : Entry ip). scopes_overlap ip e.scope sc) (bucket ip dec lru_cache key st)

  abbrev pub is_restore : Origin → Bool
  is_restore answer = false
  is_restore refresh = false
  is_restore (restore remaining stamp) = true

  abbrev is_refresh : Origin → Bool
  is_refresh refresh = true
  is_refresh _ = false

  abbrev stamp_of : Origin → Option ℕ
  stamp_of (restore remaining stamp) = some stamp
  stamp_of _ = none

  -- The lifetime of a restored record is cut to what is left of it.
  unfoldable pub cut_lifetime : Origin → Prepared W → Prepared W
  cut_lifetime origin (refused reason) = refused reason
  cut_lifetime answer (prepared w lifetime negative) =
      if lifetime == 0 then refused ttl_zero else prepared w lifetime negative
  cut_lifetime refresh (prepared w lifetime negative) =
      if lifetime == 0 then refused ttl_zero else prepared w lifetime negative
  cut_lifetime (restore remaining stamp) (prepared w lifetime negative) =
      if min lifetime remaining == 0
      then refused ttl_zero
      else prepared w (min lifetime remaining) negative

  abbrev pub lifetime_of : Prepared W → Option ℕ
  lifetime_of (refused reason) = none
  lifetime_of (prepared w lifetime negative) = some (lifetime * second)

  abbrev pub observed : Locked → Scope ip × Bool × Table → Scope ip × Locked
  observed l (seen, is_revoked, table) = (
    seen,
    record {
      shard = record l.shard {
        counts = record l.shard.counts {
          revocations = l.shard.counts.revocations + flag is_revoked;
        };
      };
      table = table;
    },
  )

  -- The scope under which the answer is kept, once the sharing table has seen it.
  unfoldable pub classify :
      StoreConfig → Origin → K → Scope ip → Option F → Prepared W → ℕ → Locked → Scope ip × Locked
  classify c origin key sc print p now l =
      if c.sharing_enabled && not (is_restore origin)
      then observed l (observe key sc print (lifetime_of p) now l.table)
      else (sc, l)

  -- A restored record may not displace anything.
  unfoldable pub restore_fits : ℕ → K → Scope ip → W → Bool → State → Bool
  restore_fits max_variants key sc w negative st =
      let p = st.partitions negative in
      not (leb p.max_entries (len p.lru))
      && not (ltb p.max_bytes (p.charged + charge ip dec lru_cache layout w key))
      && elim (lookup dec key st.buckets) [
        | none ↦ true
        | some es ↦
            not (leb max_variants (length es))
            && length (retain (λ (e : Entry ip). scopes_overlap ip e.scope sc) es) == 0
      ]

  abbrev pub is_nonempty : List (Entry ip) → Bool
  is_nonempty [] = false
  is_nonempty (e ∷ es) = true

  abbrev pub Result : Type 0
  Result = Option (StoreDecision × Locked)

  abbrev pub with_shard : Table → Option (StoreDecision × State) → Result
  with_shard table none = none
  with_shard table (some (d, st)) = some (d, record { shard = st; table = table })

  -- What an answer is stored as.
  unfoldable pub stored_of :
      StoreConfig → Request K W F → Origin → Scope ip → W → ℕ → Bool → Stored ip W
  stored_of c req origin sc w lifetime negative = record {
    wire = w;
    scope = sc;
    lifetime = lifetime * second;
    retention =
        if req.stale && not negative
        then lifetime * second + c.stale_retention
        else lifetime * second;
    negative = negative;
    failure = none;
    prefetch = req.prefetch;
    refreshed = is_refresh origin;
    accessed = stamp_of origin;
  }

  -- Supersession: every entry that overlaps goes, and then the answer is placed if it may be.
  unfoldable pub supersede :
      StoreConfig → Request K W F → Origin → K → Scope ip → Prepared W → ℕ → Locked → Result
  supersede c req origin key sc p now l =
      let old = overlapping key sc l.shard in
      elim (remove_all ip dec lru_cache (places ip dec lru_cache old) l.shard) [
        | none ↦ none
        | some st ↦ elim p [
          | refused reason ↦
              some (reject reason (is_nonempty old), record { shard = st; table = l.table })
          | prepared w lifetime negative ↦ with_shard l.table (
              place ip dec lru_cache layout c.max_variants key
                (stored_of c req origin sc w lifetime negative) now (is_nonempty old) st)
        ]
      ]

  -- The check of a restored record, then supersession.
  unfoldable pub admit_classified :
      StoreConfig → Request K W F → Origin → K → Prepared W → ℕ → Scope ip × Locked → Result
  admit_classified c req (restore remaining stamp) key (refused reason) now (sc, l) =
      some (skip reason, l)
  admit_classified c req (restore remaining stamp) key (prepared w lifetime negative) now (sc, l) =
      if restore_fits c.max_variants key sc w negative l.shard
      then supersede c req (restore remaining stamp) key sc (prepared w lifetime negative) now l
      else some (skip capacity, l)
  admit_classified c req answer key p now (sc, l) = supersede c req answer key sc p now l
  admit_classified c req refresh key p now (sc, l) = supersede c req refresh key sc p now l

  -- Under the lock: the epoch, the expired entries of the key, and classification.
  unfoldable pub admit_locked :
      StoreConfig → Request K W F → Origin → K → Scope ip → ℕ → ℕ → ℕ → Locked → Result
  admit_locked c req origin key sc now epoch current l =
      if not (epoch == current)
      then some (skip epoch_changed, count_rejection (flag (not (is_restore origin))) l)
      else elim (prune ip dec lru_cache key now l.shard) [
        | none ↦ none
        | some st ↦
            let p = cut_lifetime origin req.prepared in
            admit_classified c req origin key p now
              (classify c origin key sc req.fingerprint p now (record l { shard = st }))
      ]

  -- `Cache::admit`.
  unfoldable pub admit :
      StoreConfig → Request K W F → Origin → Scope ip → ℕ → ℕ → ℕ → Locked → Result
  admit c req origin sc now epoch current l = elim req.key [
    | none ↦ some (skip req.rejection, l)
    | some key ↦
        if req.bypass
        then some (skip policy_disabled, l)
        else if not req.superseding
        then some (skip unsupported_edns, l)
        else if not req.complete
        then some (skip uncacheable_response, l)
        else admit_locked c req origin key sc now epoch current l
  ]
