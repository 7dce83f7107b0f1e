-- ===== src/Cache/Placement.antt =====
-- cache.rs, `Cache::place`: it always comes to a decision, on every branch.
use pari_ns.Prelude.{
  ℕ, ◌≡◌, refl, sym, ◌⊎◌, inl, inr, Bool, ◌||◌, ltb, ◌==◌, Option, none, some, some_eq, List, [],
  ◌∷◌, arith, Bool-cases, Option-cases,
}
use pari_ns.Net.{IpNet}
use pari_ns.Cache.Decision.{
  variants, DecisionReason, capacity, variant_limit, StoreDecision, reject,
}
use pari_ns.Cache.Lru.{LruCache}
use pari_ns.Cache.Select.{Entry, Member}
use pari_ns.Cache.Shard.{Cached, Shard, bucket}
use pari_ns.Cache.Admit.{
  Layout, Stored, Room, charge, least_used, oldest_variant, same_kind, publish, count_rejection,
  stored_decision, finish_place, variants_full, place,
}
use pari_ns.Cache.Consistent.{IsShard, Reduced, Reduced-refl, Reduced-trans}
use pari_ns.Cache.Bucket.{Member-retain}
use pari_ns.Cache.Eviction.{Made, made_room, no_room, make_room_lem, evict_lem}
use pari_ns.Cache.Publish.{publish-IsShard}

module _ (ip : IpNet) {K W : Type 0} (dec : Discrete K) (lru_cache : LruCache (Cached ip K W))
    (layout : Layout K W) where
  abbrev State : Type 0
  State = Shard ip dec lru_cache

  least_used-Member :
      (accessed : ℕ → ℕ) (best : Option (Entry ip)) (e : Entry ip) (es : List (Entry ip))
      → least_used ip dec lru_cache layout accessed best es ≡ some e
      → (best ≡ some e) ⊎ Member ip e es
  unfolding least_used
  least_used-Member accessed best e [] h = inl h
  least_used-Member accessed none e (x ∷ es) h = elim (least_used-Member accessed (some x) e es h) [
    | inl q ↦ inr (inl (sym (some_eq q)))
    | inr m ↦ inr (inr m)
  ]
  least_used-Member accessed (some b) e (x ∷ es) h =
      elim (Bool-cases (ltb (accessed x.id) (accessed b.id))) [
        | inl lt ↦ elim (least_used-Member accessed (some x) e es (rw (lt, least_used) at h)) [
          | inl q ↦ inr (inl (sym (some_eq q)))
          | inr m ↦ inr (inr m)
        ]
        | inr ge ↦ elim (least_used-Member accessed (some b) e es (rw (ge, least_used) at h)) [
          | inl q ↦ inl q
          | inr m ↦ inr (inr m)
        ]
      ]

  oldest_variant-Member :
      (negative : Bool) (es : List (Entry ip)) (st : State) (e : Entry ip)
      → oldest_variant ip dec lru_cache layout negative es st ≡ some e
      → Member ip e es
  unfolding oldest_variant
  oldest_variant-Member negative es st e h = elim (least_used-Member st.accessed none e _ h) [
    | inl q ↦ cc
    | inr m ↦
        (Member-retain ip dec lru_cache (λ x. same_kind ip dec lru_cache layout negative x.negative)
          e es m).0
  ]

  -- What a placement comes to: the entry is published after removals, or refused for a reason.
  pub data Placed (key : K) (stored : Stored ip W) (now : ℕ) (superseded : Bool) (st : State)
      : StoreDecision → State → Type 0 where
    published :
        (st1 : State)
        → IsShard ip dec lru_cache st1
        → Reduced ip dec lru_cache st st1
        → Placed key stored now superseded st
            (stored_decision ip dec lru_cache layout superseded)
            (publish ip dec lru_cache layout key stored now st1)
    turned_down :
        (reason : DecisionReason) (st1 : State)
        → (reason ≡ capacity) ⊎ (reason ≡ variant_limit)
        → Reduced ip dec lru_cache st st1
        → Placed key stored now superseded st (reject reason superseded) st1

  abbrev pub Decided : K → Stored ip W → ℕ → Bool → State → Option (StoreDecision × State) → Type 0
  Decided key stored now superseded st r =
      (d : StoreDecision) × (st' : State) × (r ≡ some (d, st'))
      × IsShard ip dec lru_cache st'
      × Placed key stored now superseded st d st'

  finish_lem :
      (key : K) (stored : Stored ip W) (now : ℕ) (superseded : Bool) (st st1 : State)
      (r : Room ip dec lru_cache layout)
      → Reduced ip dec lru_cache st st1
      → Made ip dec lru_cache layout stored.negative
          (charge ip dec lru_cache layout stored.wire key)
          st1
          r
      → Decided key stored now superseded st
          (finish_place ip dec lru_cache layout key stored now superseded r)
  unfolding finish_place
  finish_lem key stored now superseded st st1 _ less (made_room st' w k entries bytes) = (
    stored_decision ip dec lru_cache layout superseded,
    publish ip dec lru_cache layout key stored now st',
    refl,
    publish-IsShard ip dec lru_cache layout key stored now st' entries bytes w,
    published st' w (Reduced-trans ip dec lru_cache st st1 st' less k),
  )
  finish_lem key stored now superseded st st1 _ less (no_room st' w k empty limit) = (
    reject capacity superseded,
    count_rejection ip dec lru_cache layout st',
    refl,
    w,
    turned_down capacity (count_rejection ip dec lru_cache layout st') (inl refl)
        (Reduced-trans ip dec lru_cache st st1 st' less k),
  )

  rejected_lem :
      (key : K) (stored : Stored ip W) (now : ℕ) (superseded : Bool) (reason : DecisionReason)
      (st : State)
      → (reason ≡ capacity) ⊎ (reason ≡ variant_limit)
      → IsShard ip dec lru_cache st
      → Decided key stored now superseded st
          (some (reject reason superseded, count_rejection ip dec lru_cache layout st))
  rejected_lem key stored now superseded reason st why w = (
    reject reason superseded,
    count_rejection ip dec lru_cache layout st,
    refl,
    w,
    turned_down reason (count_rejection ip dec lru_cache layout st) why
        (Reduced-refl ip dec lru_cache st),
  )

  -- A placement into a consistent shard comes to a decision within its fuel and without a fault,
  -- and leaves the shard consistent: each partition within its limits of entries and bytes.
  pub place_total :
      (max_variants : ℕ) (key : K) (stored : Stored ip W) (now : ℕ) (superseded : Bool) (st : State)
      → IsShard ip dec lru_cache st
      → Decided key stored now superseded st
          (place ip dec lru_cache layout max_variants key stored now superseded st)
  unfolding place
  place_total max_variants key stored now superseded st w =
      let p = st.partitions stored.negative in
      elim (Bool-cases
        (ltb p.max_bytes (charge ip dec lru_cache layout stored.wire key) || p.max_entries == 0)) [
          | inl never ↦
              rw (never, place) (rejected_lem key stored now superseded capacity st (inl refl) w)
          | inr maybe ↦
              elim (Bool-cases (variants_full ip dec lru_cache layout max_variants key st)) [
                | inr room ↦
                    rw (maybe, place, room)
                      (finish_lem key stored now superseded st st _
                        (Reduced-refl ip dec lru_cache st)
                        (make_room_lem ip dec lru_cache layout _ stored.negative _ now st
                          (omega arith) w))
                | inl many ↦
                    elim (Option-cases (
                      oldest_variant ip dec lru_cache layout stored.negative
                        (bucket ip dec lru_cache key st) st)) [
                          | inl q ↦
                              rw (maybe, place, many, q)
                                (rejected_lem key stored now superseded variant_limit st (inr refl)
                                  w)
                          | inr (e, q) ↦
                              let (c, at_, _, _) =
                                w.present key e (oldest_variant-Member stored.negative _ st e q) in
                              let (st', run, w', less, _) =
                                evict_lem ip dec lru_cache layout e.negative e.id now variants st c
                                  at_ w in
                              rw (maybe, place, many, q, run)
                                (finish_lem key stored now superseded st st' _ less (
                                  make_room_lem ip dec lru_cache layout _ stored.negative _ now st'
                                    (omega arith) w'))
                        ]
              ]
        ]
