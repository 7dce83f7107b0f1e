-- ===== src/Cache/Admission.antt =====
-- cache.rs, `Cache::admit`: what an admission comes to, on every branch.
use pari_ns.Prelude.{ℕ, ◌≡◌, refl, inl, inr, Bool, true, false, Option, some, Bool-cases}
use pari_ns.Net.{IpNet}
use pari_ns.Ecs.Scope.{Scope}
use pari_ns.Ecs.Overlap.{scopes_overlap}
use pari_ns.Cache.Decision.{DecisionReason, capacity, StoreDecision, is_admitted, skip, reject}
use pari_ns.Cache.Lru.{LruCache}
use pari_ns.Cache.Select.{Entry, Member}
use pari_ns.Cache.Shard.{Cached, Shard, bucket}
use pari_ns.Cache.Admit.{Layout, publish, stored_decision}
use pari_ns.Cache.Store.{
  Prepared, refused, prepared, Origin, answer, refresh, restore, Sharing, StoreConfig, Request,
  Locked, overlapping, is_nonempty, cut_lifetime, restore_fits, stored_of, supersede,
  admit_classified,
}
use pari_ns.Cache.Consistent.{IsShard, Reduced, Reduced-refl, Reduced-trans}
use pari_ns.Cache.Placement.{Placed, published, turned_down, place_total}
use pari_ns.Cache.Sweep.{sweep_lem}

pub reject_lem :
    (reason : DecisionReason) (superseded : Bool) → is_admitted (reject reason superseded) ≡ false
unfolding is_admitted reject
reject_lem reason true = refl
reject_lem reason false = refl

module _ (ip : IpNet) {K W : Type 0} (dec : Discrete K) (lru_cache : LruCache (Cached ip K W))
    {F : Type 0} (layout : Layout K W) (sharing : Sharing ip K F) where
  abbrev LockedShard : Type 0
  LockedShard = Locked ip dec lru_cache layout sharing

  abbrev State : Type 0
  State = Shard ip dec lru_cache

  pub stored_lem :
      (superseded : Bool) → is_admitted (stored_decision ip dec lru_cache layout superseded) ≡ true
  unfolding is_admitted
  stored_lem true = refl
  stored_lem false = refl

  -- What is in the bucket of the key overlaps no scope of a new answer.
  abbrev pub Clear : K → Scope ip → State → Type 0
  Clear key sc st =
      (e : Entry ip)
      → Member ip e (bucket ip dec lru_cache key st)
      → scopes_overlap ip e.scope sc ≡ false

  -- What an admission comes to: nothing is added, or every entry of the key that overlaps the
  -- answer's scope is removed and the answer is published.
  pub data Admission (c : StoreConfig) (req : Request K W F) (origin : Origin) (key : K)
      (sc : Scope ip) (now : ℕ) (st : State) : StoreDecision → State → Type 0 where
    kept_out :
        (d : StoreDecision) (st' : State)
        → is_admitted d ≡ false
        → Reduced ip dec lru_cache st st'
        → Admission c req origin key sc now st d st'
    taken_in :
        (d : StoreDecision) (w : W) (lifetime : ℕ) (negative : Bool) (st1 : State)
        → is_admitted d ≡ true
        → cut_lifetime ip dec lru_cache layout sharing origin req.prepared
          ≡ prepared w lifetime negative
        → IsShard ip dec lru_cache st1
        → Reduced ip dec lru_cache st st1
        → Clear key sc st1
        → Admission c req origin key sc now st d (
            publish ip dec lru_cache layout key
              (stored_of ip dec lru_cache layout sharing c req origin sc w lifetime negative)
              now
              st1)

  abbrev pub Decided :
      StoreConfig
      → Request K W F
      → Origin
      → K
      → Scope ip
      → ℕ
      → State
      → Option (StoreDecision × LockedShard)
      → Type 0
  Decided c req origin key sc now st r =
      (d : StoreDecision) × (l' : LockedShard) × (r ≡ some (d, l'))
      × IsShard ip dec lru_cache l'.shard
      × Admission c req origin key sc now st d l'.shard

  from_Placed :
      (c : StoreConfig) (req : Request K W F) (origin : Origin) (key : K) (sc : Scope ip) (now : ℕ)
      (w : W) (lifetime : ℕ) (negative superseded : Bool) (st st1 st2 : State) (d : StoreDecision)
      → cut_lifetime ip dec lru_cache layout sharing origin req.prepared
        ≡ prepared w lifetime negative
      → Reduced ip dec lru_cache st st1
      → Clear key sc st1
      → Placed ip dec lru_cache layout key
          (stored_of ip dec lru_cache layout sharing c req origin sc w lifetime negative)
          now
          superseded
          st1
          d
          st2
      → Admission c req origin key sc now st d st2
  from_Placed c req origin key sc now w lifetime negative superseded st st1 _ _ cut less clear
        (published st2 w2 less') =
      taken_in (stored_decision ip dec lru_cache layout superseded) w lifetime negative st2
        (stored_lem superseded) cut w2 (Reduced-trans ip dec lru_cache st st1 st2 less less')
        (λ e m. clear e ((less'.1).fewer key e m))
  from_Placed c req origin key sc now w lifetime negative superseded st st1 _ _ cut less clear
        (turned_down reason st2 why less') =
      kept_out (reject reason superseded) st2 (reject_lem reason superseded)
        (Reduced-trans ip dec lru_cache st st1 st2 less less')

  supersede_lem :
      (c : StoreConfig) (req : Request K W F) (origin : Origin) (key : K) (sc : Scope ip)
      (p : Prepared W) (now : ℕ) (l : LockedShard)
      → cut_lifetime ip dec lru_cache layout sharing origin req.prepared ≡ p
      → IsShard ip dec lru_cache l.shard
      → Decided c req origin key sc now l.shard
          (supersede ip dec lru_cache layout sharing c req origin key sc p now l)
  unfolding supersede
  supersede_lem c req origin key sc (refused reason) now l cut w =
      let old = overlapping ip dec lru_cache layout sharing key sc l.shard in
      let (st1, run, w1, less, clear) =
        sweep_lem ip dec lru_cache key (λ (e : Entry ip). scopes_overlap ip e.scope sc) l.shard w in
      let superseded = is_nonempty ip dec lru_cache layout sharing old in
      (
        reject reason superseded,
        record { shard = st1; table = l.table },
        rw (run, supersede) refl,
        w1,
        kept_out (reject reason superseded) st1 (reject_lem reason superseded) less,
      )
  supersede_lem c req origin key sc (prepared wire lifetime negative) now l cut w =
      let old = overlapping ip dec lru_cache layout sharing key sc l.shard in
      let superseded = is_nonempty ip dec lru_cache layout sharing old in
      let (st1, run, w1, less, clear) =
        sweep_lem ip dec lru_cache key (λ (e : Entry ip). scopes_overlap ip e.scope sc) l.shard w in
      let (d, st2, ran, w2, placed) =
        place_total ip dec lru_cache layout c.max_variants key
          (stored_of ip dec lru_cache layout sharing c req origin sc wire lifetime negative) now
          superseded st1 w1 in
      (
        d,
        record { shard = st2; table = l.table },
        rw (run, supersede, ran) refl,
        w2,
        from_Placed c req origin key sc now wire lifetime negative superseded l.shard st1 st2 d cut
            less clear placed,
      )

  pub stay :
      (c : StoreConfig) (req : Request K W F) (origin : Origin) (key : K) (sc : Scope ip) (now : ℕ)
      (reason : DecisionReason) (st : State) (l : LockedShard)
      → IsShard ip dec lru_cache l.shard
      → Reduced ip dec lru_cache st l.shard
      → Decided c req origin key sc now st (some (skip reason, l))
  unfolding is_admitted skip
  stay c req origin key sc now reason st l w less =
      (skip reason, l, refl, w, kept_out (skip reason) l.shard refl less)

  pub after :
      (c : StoreConfig) (req : Request K W F) (origin : Origin) (key : K) (sc : Scope ip) (now : ℕ)
      (st st1 : State) (r : Option (StoreDecision × LockedShard))
      → Reduced ip dec lru_cache st st1
      → Decided c req origin key sc now st1 r
      → Decided c req origin key sc now st r
  after c req origin key sc now st st1 r less (d, l', run, w, a) = (d, l', run, w, later a)
    where
      later :
          {d : StoreDecision} {st2 : State}
          → Admission c req origin key sc now st1 d st2
          → Admission c req origin key sc now st d st2
      later (kept_out d st2 no_ more) =
          kept_out d st2 no_ (Reduced-trans ip dec lru_cache st st1 st2 less more)
      later (taken_in d wire lifetime negative st2 yes_ cut w2 more clear) =
          taken_in d wire lifetime negative st2 yes_ cut w2
            (Reduced-trans ip dec lru_cache st st1 st2 less more) clear

  pub classified_lem :
      (c : StoreConfig) (req : Request K W F) (origin : Origin) (key : K) (sc : Scope ip)
      (p : Prepared W) (now : ℕ) (l : LockedShard)
      → cut_lifetime ip dec lru_cache layout sharing origin req.prepared ≡ p
      → IsShard ip dec lru_cache l.shard
      → Decided c req origin key sc now l.shard
          (admit_classified ip dec lru_cache layout sharing c req origin key p now (sc, l))
  unfolding admit_classified
  classified_lem c req answer key sc p now l cut w = supersede_lem c req answer key sc p now l cut w
  classified_lem c req refresh key sc p now l cut w =
      supersede_lem c req refresh key sc p now l cut w
  classified_lem c req (restore remaining stamp) key sc (refused reason) now l cut w =
      stay c req (restore remaining stamp) key sc now reason l.shard l w
        (Reduced-refl ip dec lru_cache l.shard)
  classified_lem c req (restore remaining stamp) key sc (prepared wire lifetime negative) now l cut
        w =
      elim (Bool-cases (
        restore_fits ip dec lru_cache layout sharing c.max_variants key sc wire negative l.shard)) [
          | inl ok ↦
              rw (ok, admit_classified)
                (supersede_lem c req (restore remaining stamp) key sc
                  (prepared wire lifetime negative) now l cut w)
          | inr no_ ↦
              rw (no_, admit_classified)
                (stay c req (restore remaining stamp) key sc now capacity l.shard l w
                  (Reduced-refl ip dec lru_cache l.shard))
        ]
