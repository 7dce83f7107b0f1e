-- ===== src/Cache/Admit.antt =====
-- cache.rs: placement, admission and lookup under one shard's lock. What is decided before the lock
-- is taken (the key, the policy and the prepared response) is the request.
use pari_ns.Prelude.{
  ℕ, zero, suc, ◌+◌, Bool, true, false, not, Option, none, some, List, [], ◌∷◌, ◌++◌, ◌||◌, ltb,
  leb, ◌==◌, if◌then◌else◌, length,
}
use pari_ns.Prelude.Assoc.{lookup, insert}
use pari_ns.Net.{IpNet}
use pari_ns.Ecs.Scope.{Scope}
use pari_ns.Sharing.Samples.{retain}
use pari_ns.Cache.Decision.{
  EvictionReason, entries, bytes, entries_and_bytes, variants, capacity, variant_limit,
  StoreDecision, admitted, replaced, reject,
}
use pari_ns.Cache.Select.{Entry, Failure, is_failure}
use pari_ns.Cache.Lru.{LruCache}
use pari_ns.Cache.Shard.{Cached, flag, update, Shard, is_learned, bucket, evict}

-- The lengths that an entry is charged for, and the sizes of the two types.
pub record Layout (K W : Type 0) : Type 0 where
  pub wire_len : W → ℕ
  pub name_len : K → ℕ
  pub entry_size : ℕ
  pub key_size : ℕ

-- One entry prepared for `place`.
pub record Stored (ip : IpNet) (W : Type 0) : Type 0 where
  pub wire : W
  pub scope : Scope ip
  pub lifetime : ℕ
  pub retention : ℕ
  pub negative : Bool
  pub failure : Option Failure
  pub prefetch : Bool
  pub refreshed : Bool
  pub accessed : Option ℕ

module _ (ip : IpNet) {K W : Type 0} (dec : Discrete K) (lru_cache : LruCache (Cached ip K W))
    (layout : Layout K W) where
  open lru_cache use {Table, len, peek, promote, put, demote, peek_lru}

  abbrev State : Type 0
  State = Shard ip dec lru_cache

  unfoldable pub charge : W → K → ℕ
  charge wire key =
      layout.wire_len wire + layout.name_len key + layout.entry_size + layout.key_size + 192

  -- The first entry of the partition's kind that was used longest ago.
  unfoldable pub least_used : (ℕ → ℕ) → Option (Entry ip) → List (Entry ip) → Option (Entry ip)
  least_used accessed best [] = best
  least_used accessed none (e ∷ es) = least_used accessed (some e) es
  least_used accessed (some b) (e ∷ es) =
      least_used accessed (some (if ltb (accessed e.id) (accessed b.id) then e else b)) es

  abbrev pub same_kind : Bool → Bool → Bool
  same_kind true b = b
  same_kind false b = not b

  unfoldable pub oldest_variant : Bool → List (Entry ip) → State → Option (Entry ip)
  oldest_variant negative ids st =
      least_used st.accessed none (retain (λ (e : Entry ip). same_kind negative e.negative) ids)

  pub data Room : Type 0 where
    fits : State → Room
    full : State → Room
    fault : Room

  unfoldable pub eviction_reason : Bool → Bool → EvictionReason
  eviction_reason entry_limit byte_limit =
      if entry_limit then if byte_limit then entries_and_bytes else entries else bytes

  abbrev pub entry_limit : Bool → State → Bool
  entry_limit part st = leb (st.partitions part).max_entries (len (st.partitions part).lru)

  abbrev pub byte_limit : Bool → ℕ → State → Bool
  byte_limit part n st = ltb (st.partitions part).max_bytes ((st.partitions part).charged + n)

  -- The loop that evicts the least recently used until the charge fits. Each round removes an
  -- entry, so as many rounds as the partition has entries, and one to see the end, are enough.
  unfoldable pub make_room : ℕ → Bool → ℕ → ℕ → State → Room
  make_room zero part n now st = fault
  make_room (suc fuel) part n now st = elim (entry_limit part st || byte_limit part n st) [
    | false ↦ fits st
    | true ↦ elim (peek_lru (st.partitions part).lru) [
      | none ↦ full st
      | some (id, c) ↦
          elim (evict ip dec lru_cache part id now
            (eviction_reason (entry_limit part st) (byte_limit part n st)) st) [
              | none ↦ fault
              | some st' ↦ make_room fuel part n now st'
            ]
    ]
  ]

  abbrev pub count_rejection : State → State
  count_rejection st = record st {
    counts = record st.counts { rejections = st.counts.rejections + 1 };
  }

  -- What `publish` puts into the bucket and the partition.
  unfoldable pub entry_of : ℕ → Stored ip W → ℕ → Entry ip
  entry_of id stored now = record {
    id = id;
    scope = stored.scope;
    inserted = now;
    lifetime = stored.lifetime;
    retention = stored.retention;
    negative = stored.negative;
    failure = stored.failure;
  }

  unfoldable pub cached_of : K → ℕ → Stored ip W → ℕ → Cached ip K W
  cached_of key id stored now = record {
    fixed = entry_of id stored now;
    key = key;
    wire = stored.wire;
    prefetch = stored.prefetch;
    charge = charge stored.wire key;
  }

  abbrev pub put_entry : Option ℕ → ℕ → Cached ip K W → Table → Table
  put_entry none id c t = put id c t
  put_entry (some accessed) id c t = demote id (put id c t)

  abbrev pub or_id : ℕ → Option ℕ → ℕ
  or_id id none = id
  or_id id (some accessed) = accessed

  -- The end of `place`: the entry gets the next id and enters its bucket and its partition.
  unfoldable pub publish : K → Stored ip W → ℕ → State → State
  publish key stored now st =
      let id = st.clock + 1 in
      let p = st.partitions stored.negative in
      record st {
        clock = id;
        partitions =
            update stored.negative
              (record p {
                charged = p.charged + charge stored.wire key;
                lru = put_entry stored.accessed id (cached_of key id stored now) p.lru;
              })
              st.partitions;
        learned_entries = st.learned_entries + flag (is_learned ip dec lru_cache stored.scope);
        failures = st.failures + flag (is_failure ip stored.failure);
        buckets =
            insert dec key (bucket ip dec lru_cache key st ++ entry_of id stored now ∷ [])
              st.buckets;
        accessed = λ i. if i == id then or_id id stored.accessed else st.accessed i;
        refreshed = λ i. if i == id then stored.refreshed else st.refreshed i;
      }

  abbrev pub stored_decision : Bool → StoreDecision
  stored_decision superseded = record {
    outcome = if superseded then replaced else admitted;
    reason = none;
  }

  -- A decision and the state it leaves; `none` is a panic, a counter's fault or want of fuel.
  unfoldable pub finish_place : K → Stored ip W → ℕ → Bool → Room → Option (StoreDecision × State)
  finish_place key stored now superseded (fits st) =
      some (stored_decision superseded, publish key stored now st)
  finish_place key stored now superseded (full st) =
      some (reject capacity superseded, count_rejection st)
  finish_place key stored now superseded fault = none

  abbrev pub room_for : K → Stored ip W → ℕ → State → Room
  room_for key stored now st =
      make_room (suc (len (st.partitions stored.negative).lru)) stored.negative
        (charge stored.wire key) now st

  unfoldable pub variants_full : ℕ → K → State → Bool
  variants_full max_variants key st = elim (lookup dec key st.buckets) [
    | none ↦ false
    | some ids ↦ leb max_variants (length ids)
  ]

  -- `Cache::place`.
  unfoldable pub place : ℕ → K → Stored ip W → ℕ → Bool → State → Option (StoreDecision × State)
  place max_variants key stored now superseded st =
      let p = st.partitions stored.negative in
      if ltb p.max_bytes (charge stored.wire key) || p.max_entries == 0
      then some (reject capacity superseded, count_rejection st)
      else elim (variants_full max_variants key st) [
        | false ↦ finish_place key stored now superseded (room_for key stored now st)
        | true ↦ elim (oldest_variant stored.negative (bucket ip dec lru_cache key st) st) [
          | none ↦ some (reject variant_limit superseded, count_rejection st)
          | some e ↦ elim (evict ip dec lru_cache e.negative e.id now variants st) [
            | none ↦ none
            | some st' ↦ finish_place key stored now superseded (room_for key stored now st')
          ]
        ]
      ]
