-- ===== src/Cache/Shard.antt =====
-- cache.rs, `Shard`: the state behind one shard's lock, and the removal of entries. The key, the
-- wire bytes and the sharing table are parameters; an entry's shared cells (`accessed` and
-- `refreshed`) are kept by id, since the bucket and the partition hold the same allocation.
use pari_ns.Prelude.{
  ℕ, ◌+◌, ◌-◌, Bool, true, false, not, Option, none, some, List, [], ◌∷◌, ltb, leb, ◌==◌,
  if◌then◌else◌, count, ℕ_discrete,
}
use pari_ns.Prelude.Assoc.{lookup, insert, remove}
use pari_ns.Net.{IpNet}
use pari_ns.Ecs.Scope.{Scope, learned}
use pari_ns.Sharing.Samples.{retain}
use pari_ns.Cache.Decision.{
  EvictionReason, EvictionState, fresh, retained, expired, Evictions, record_eviction,
}
use pari_ns.Cache.Select.{Entry, is_failure, place_of}
use pari_ns.Cache.Lru.{LruCache}

-- `Entry` with what the choice of an entry does not read.
pub record Cached (ip : IpNet) (K W : Type 0) : Type 0 where
  pub fixed : Entry ip
  pub key : K
  pub wire : W
  pub prefetch : Bool
  pub charge : ℕ

pub record Counts : Type 0 where
  pub hits : ℕ
  pub stale_hits : ℕ
  pub misses : ℕ
  pub evictions : ℕ
  pub rejections : ℕ
  pub shared_hits : ℕ
  pub revocations : ℕ
  pub failure_hits : ℕ

abbrev pub flag : Bool → ℕ
flag true = 1
flag false = 0

-- A counter that would pass below zero is a fault.
unfoldable pub checked_sub : ℕ → ℕ → Option ℕ
checked_sub a b = if ltb a b then none else some (a - b)

-- The partition `true` is that of negative entries.
abbrev pub update {ℓ} : {A : Type ℓ} → Bool → A → (Bool → A) → Bool → A
update true x f true = x
update true x f false = f false
update false x f true = f true
update false x f false = x

module _ (ip : IpNet) {K W : Type 0} (dec : Discrete K) (lru_cache : LruCache (Cached ip K W)) where
  open lru_cache use {Table, peek, pop}

  abbrev pub is_learned : Scope ip → Bool
  is_learned (learned v) = true
  is_learned _ = false

  -- A partition, and the allocations that its byte counter counts: `held` are the ids that readers
  -- hold, once for each reader, and `orphans` the entries that left the cache while held.
  pub record Partition : Type 0 where
    pub lru : Table
    pub charged : ℕ
    pub max_entries : ℕ
    pub max_bytes : ℕ
    pub evictions : Evictions
    pub held : List ℕ
    pub orphans : List (ℕ × Cached ip K W)

  -- `Entry::drop`: the charge leaves the byte counter.
  unfoldable pub discharge : ℕ → Partition → Option Partition
  discharge n p = elim (checked_sub p.charged n) [
    | none ↦ none
    | some left ↦ some (record p { charged = left })
  ]

  -- The partition lets an entry go; a reader may keep it.
  unfoldable pub take_out : ℕ → Cached ip K W → Partition → Option Partition
  take_out id c p =
      let p' = record p { lru = pop id p.lru } in
      if ltb 0 (count ℕ_discrete id p.held)
      then some (record p' { orphans = (id, c) ∷ p.orphans })
      else discharge c.charge p'

  unfoldable pub take_one : ℕ → List ℕ → List ℕ
  take_one id [] = []
  take_one id (i ∷ ids) = if i == id then ids else i ∷ take_one id ids

  -- A reader drops its clone; the last clone of an entry that the cache let go drops the entry.
  unfoldable pub release_held : ℕ → Partition → Option Partition
  release_held id p =
      let left = record p { held = take_one id p.held } in
      if ltb 0 (count ℕ_discrete id left.held)
      then some left
      else elim (lookup ℕ_discrete id p.orphans) [
        | none ↦ some left
        | some c ↦ discharge c.charge (record left { orphans = remove ℕ_discrete id p.orphans })
      ]

  -- The counters `refresh_useful` and `refresh_unused` belong to the whole cache.
  pub record Shard : Type 0 where
    pub buckets : List (K × List (Entry ip))
    pub partitions : Bool → Partition
    pub clock : ℕ
    pub counts : Counts
    pub learned_entries : ℕ
    pub failures : ℕ
    pub accessed : ℕ → ℕ
    pub refreshed : ℕ → Bool
    pub refresh_useful : ℕ
    pub refresh_unused : ℕ

  abbrev pub or_empty : Option (List (Entry ip)) → List (Entry ip)
  or_empty none = []
  or_empty (some es) = es

  abbrev pub bucket : K → Shard → List (Entry ip)
  bucket k st = or_empty (lookup dec k st.buckets)

  -- A reader takes a clone of an entry's `Arc`.
  abbrev pub hold : Bool → ℕ → Shard → Shard
  hold part id st = record st {
    partitions =
        update part (record (st.partitions part) { held = id ∷ (st.partitions part).held })
          st.partitions;
  }

  -- The entry leaves its bucket, and an empty bucket goes.
  unfoldable pub leave_bucket : K → ℕ → List (K × List (Entry ip)) → List (K × List (Entry ip))
  leave_bucket key id buckets = elim (lookup dec key buckets) [
    | none ↦ buckets
    | some es ↦ elim (retain (λ (e : Entry ip). not (e.id == id)) es) [
      | [] ↦ remove dec key buckets
      | e ∷ rest ↦ insert dec key (e ∷ rest) buckets
    ]
  ]

  unfoldable pub remove_entry : Bool → ℕ → Cached ip K W → Shard → Option Shard
  remove_entry part id c st =
      elim (checked_sub st.learned_entries (flag (is_learned c.fixed.scope))) [
        | none ↦ none
        | some l ↦ elim (checked_sub st.failures (flag (is_failure ip c.fixed.failure))) [
          | none ↦ none
          | some f ↦ elim (take_out id c (st.partitions part)) [
            | none ↦ none
            | some p ↦ some (record st {
              partitions = update part p st.partitions;
              buckets = leave_bucket c.key id st.buckets;
              learned_entries = l;
              failures = f;
              refreshed = λ i. if i == id then false else st.refreshed i;
              refresh_unused = st.refresh_unused + flag (st.refreshed id);
            })
          ]
        ]
      ]

  -- `Cache::remove`; `none` is a fault of a counter.
  unfoldable pub remove_id : Bool → ℕ → Shard → Option Shard
  remove_id part id st = elim (peek id (st.partitions part).lru) [
    | none ↦ some st
    | some c ↦ remove_entry part id c st
  ]

  unfoldable pub remove_all : List (Bool × ℕ) → Shard → Option Shard
  remove_all [] st = some st
  remove_all ((part, id) ∷ places) st = elim (remove_id part id st) [
    | none ↦ none
    | some st' ↦ remove_all places st'
  ]

  unfoldable pub eviction_state : ℕ → Entry ip → EvictionState
  eviction_state now e =
      if ltb (now - e.inserted) e.lifetime
      then fresh
      else if ltb (now - e.inserted) e.retention
      then retained
      else expired

  -- `Cache::evict`; `none` is a panic.
  unfoldable pub evict : Bool → ℕ → ℕ → EvictionReason → Shard → Option Shard
  evict part id now reason st =
      let p = st.partitions part in
      elim (peek id p.lru) [
        | none ↦ none
        | some c ↦ remove_id part id (record st {
          partitions =
              update part
                (record p {
                  evictions = record_eviction reason (eviction_state now c.fixed) p.evictions;
                })
                st.partitions;
          counts = record st.counts { evictions = st.counts.evictions + 1 };
        })
      ]

  abbrev pub places : List (Entry ip) → List (Bool × ℕ)
  places [] = []
  places (e ∷ es) = place_of ip e ∷ places es

  -- `Cache::prune`.
  unfoldable pub prune : K → ℕ → Shard → Option Shard
  prune key now st =
      remove_all
        (places (retain (λ (e : Entry ip). leb e.retention (now - e.inserted)) (bucket key st))) st
