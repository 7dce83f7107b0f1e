-- ===== src/Cache/Eviction.antt =====
-- cache.rs, `Cache::evict` and the loop of `Cache::place` that makes room for an entry.
use pari_ns.Prelude.{
  ℕ, zero, suc, ◌+◌, ◌≤◌, ◌<◌, ◌≡◌, refl, sym, ◌∙◌, ◌⊎◌, inl, inr, ap, Bool, true, false, ◌||◌,
  none, some, List, [], ◌∷◌, arith, ℕ_discrete, Bool-cases, Option-cases, length, count,
}
use pari_ns.Prelude.Assoc.{lookup, count-pos, keys}
use pari_ns.Net.{IpNet}
use pari_ns.Cache.Decision.{EvictionReason, record_eviction}
use pari_ns.Cache.Lru.{LruCache, last}
use pari_ns.Cache.Shard.{Cached, Partition, Shard, update, evict, eviction_state}
use pari_ns.Cache.Admit.{
  Layout, Room, fits, full, entry_limit, byte_limit, make_room, eviction_reason,
}
use pari_ns.Cache.Alike.{Alike, Reordered-refl, Alike-IsShard, Alike-Reduced}
use pari_ns.Cache.Consistent.{IsShard, Reduced, Reduced-refl, Reduced-trans}
use pari_ns.Cache.Removal.{remove_id_lem, Taken-len}

last-lookup :
    {V : Type 0} (id : ℕ) (v : V) (m : List (ℕ × V))
    → last m ≡ some (id, v)
    → count ℕ_discrete id (keys m) ≤ 1
    → lookup ℕ_discrete id m ≡ some v
unfolding last lookup count
last-lookup id v [] h u = cc
last-lookup id v ((j, w) ∷ []) h u = ground arith
last-lookup id v ((j, w) ∷ y ∷ ys) h u =
    let rest = last-lookup id v (y ∷ ys) h in
    ground (arith, rest, count-pos ℕ_discrete id (y ∷ ys) v)

no_last : {V : Type 0} (y : ℕ × V) (ys : List (ℕ × V)) → last (y ∷ ys) ≡ none → ⊥
unfolding last
no_last y [] h = cc
no_last y (z ∷ zs) h = no_last z zs h

last-none : {V : Type 0} (m : List (ℕ × V)) → last m ≡ none → length m ≡ 0
last-none [] h = refl
last-none (y ∷ ys) h = absurd (no_last y ys h)

module _ (ip : IpNet) {K W : Type 0} (dec : Discrete K) (lru_cache : LruCache (Cached ip K W))
    (layout : Layout K W) where
  open lru_cache use {
    Table, iter, len, peek, pop, peek_lru, len_iter, peek_iter, iter_pop, peek_lru_iter, single,
  }

  abbrev State : Type 0
  State = Shard ip dec lru_cache

  abbrev Part : Type 0
  Part = Partition ip dec lru_cache

  abbrev noted : ℕ → EvictionReason → Cached ip K W → Part → Part
  noted now reason c p = record p {
    evictions = record_eviction reason (eviction_state ip dec lru_cache now c.fixed) p.evictions;
  }

  noted-Alike :
      (now : ℕ) (reason : EvictionReason) (c : Cached ip K W) (p : Part)
      → Alike ip dec lru_cache p (noted now reason c p)
  noted-Alike now reason c p = record {
    reordered = Reordered-refl ip dec lru_cache p.lru;
    same_orphans = refl;
    same_charged = refl;
    same_entries = refl;
    same_bytes = refl;
  }

  noted_lru :
      (part : Bool) (now : ℕ) (reason : EvictionReason) (c : Cached ip K W) (f : Bool → Part)
      → (update part (noted now reason c (f part)) f part).lru ≡ (f part).lru
  noted_lru true now reason c f = refl
  noted_lru false now reason c f = refl

  -- An eviction of an entry that the partition holds is no panic, and leaves one entry fewer.
  pub evict_lem :
      (part : Bool) (id now : ℕ) (reason : EvictionReason) (st : State) (c : Cached ip K W)
      → peek id (st.partitions part).lru ≡ some c
      → IsShard ip dec lru_cache st
      → (st' : State) × (evict ip dec lru_cache part id now reason st ≡ some st')
        × IsShard ip dec lru_cache st'
        × Reduced ip dec lru_cache st st'
        × (len (st'.partitions part).lru < len (st.partitions part).lru)
  unfolding evict
  evict_lem part id now reason st c h w =
      let p = noted now reason c (st.partitions part) in
      let a = noted-Alike now reason c (st.partitions part) in
      let st1 = record st {
        partitions = update part p st.partitions;
        counts = record st.counts { evictions = st.counts.evictions + 1 };
      } in
      let same = noted_lru part now reason c st.partitions in
      let (st', run, w', less, taken) =
        remove_id_lem ip dec lru_cache part id st1
          (Alike-IsShard ip dec lru_cache part p st.clock st (omega arith) a w) in
      (
        st',
        rw (h, evict) run,
        w',
        Reduced-trans ip dec lru_cache st st1 st' (Alike-Reduced ip dec lru_cache part p st a) less,
        omega (
          arith,
          Taken-len ip dec lru_cache part id st1 st' c taken (rw same h),
          ap (λ t. len t) same,
        ),
      )

  peek-peek_lru :
      (id : ℕ) (c : Cached ip K W) (t : Table) → peek_lru t ≡ some (id, c) → peek id t ≡ some c
  peek-peek_lru id c t h =
      peek_iter id t ∙ last-lookup id c (iter t) (sym (peek_lru_iter t) ∙ h) (single t id)

  len-peek_lru : (t : Table) → peek_lru t ≡ none → len t ≡ 0
  len-peek_lru t h = len_iter t ∙ last-none (iter t) (sym (peek_lru_iter t) ∙ h)

  -- What the loop promises: room for the charge under both limits, or an emptied partition whose
  -- limits leave no room even so.
  pub data Made (part : Bool) (n : ℕ) (st : State) : Room ip dec lru_cache layout → Type 0 where
    made_room :
        (st' : State)
        → IsShard ip dec lru_cache st'
        → Reduced ip dec lru_cache st st'
        → len (st'.partitions part).lru + 1 ≤ (st'.partitions part).max_entries
        → (st'.partitions part).charged + n ≤ (st'.partitions part).max_bytes
        → Made part n st (fits st')
    no_room :
        (st' : State)
        → IsShard ip dec lru_cache st'
        → Reduced ip dec lru_cache st st'
        → len (st'.partitions part).lru ≡ 0
        → ((st'.partitions part).max_entries ≡ 0)
          ⊎ ((st'.partitions part).max_bytes < (st'.partitions part).charged + n)
        → Made part n st (full st')

  Made-after :
      (part : Bool) (n : ℕ) (st st1 : State) (r : Room ip dec lru_cache layout)
      → Reduced ip dec lru_cache st st1
      → Made part n st1 r
      → Made part n st r
  Made-after part n st st1 _ less (made_room st' w k a b) =
      made_room st' w (Reduced-trans ip dec lru_cache st st1 st' less k) a b
  Made-after part n st st1 _ less (no_room st' w k a b) =
      no_room st' w (Reduced-trans ip dec lru_cache st st1 st' less k) a b

  -- On a consistent shard the loop that makes room ends within one round more than the partition has
  -- entries, without a panic, and leaves the shard consistent: with room for one entry of the charge
  -- under both limits, or with the partition emptied and its limits still in the way.
  pub make_room_lem :
      (fuel : ℕ) (part : Bool) (n now : ℕ) (st : State)
      → len (st.partitions part).lru < fuel
      → IsShard ip dec lru_cache st
      → Made part n st (make_room ip dec lru_cache layout fuel part n now st)
  unfolding make_room
  make_room_lem zero part n now st h w = absurd (omega arith)
  make_room_lem (suc fuel) part n now st h w =
      elim (Bool-cases (
        entry_limit ip dec lru_cache layout part st
        || byte_limit ip dec lru_cache layout part n st)) [
          | inr room ↦
              rw (room, make_room)
                (made_room st w (Reduced-refl ip dec lru_cache st) (ground arith) (ground arith))
          | inl limit ↦ elim (Option-cases (peek_lru (st.partitions part).lru)) [
            | inl q ↦
                let empty = len-peek_lru (st.partitions part).lru q in
                rw (limit, make_room, q)
                  (no_room st w (Reduced-refl ip dec lru_cache st) empty (ground arith))
            | inr ((id, c), q) ↦
                let (st', run, w', less, smaller) =
                  evict_lem part id now
                    (eviction_reason ip dec lru_cache layout
                      (entry_limit ip dec lru_cache layout part st)
                      (byte_limit ip dec lru_cache layout part n st))
                    st c (peek-peek_lru id c (st.partitions part).lru q) w in
                rw (limit, make_room, q, run)
                  (Made-after part n st st' _ less
                    (make_room_lem fuel part n now st' (omega arith) w'))
          ]
        ]
