-- ===== src/Cache/Sweep.antt =====
-- cache.rs, the removals from one bucket that `prune`, `admit` and `admit_failure` make.
use pari_ns.Prelude.{
  ℕ, ◌≡◌, sym, ◌∙◌, inl, inr, Bool, true, false, All, none, some, List, [], ◌∷◌, leb, ◌-◌,
  Bool-cases,
}
use pari_ns.Net.{IpNet}
use pari_ns.Sharing.Samples.{retain}
use pari_ns.Cache.Lru.{LruCache}
use pari_ns.Cache.Select.{Entry, Member, place_of}
use pari_ns.Cache.Shard.{Cached, Shard, bucket, places, remove_all, prune}
use pari_ns.Cache.Consistent.{IsShard, Reduced}
use pari_ns.Cache.Removal.{Gone, remove_all_lem}

module _ (ip : IpNet) {K W : Type 0} (dec : Discrete K) (lru_cache : LruCache (Cached ip K W)) where
  abbrev State : Type 0
  State = Shard ip dec lru_cache

  Gone-places :
      (st : State) (e : Entry ip) (es : List (Entry ip))
      → All (λ (q : Bool × ℕ). Gone ip dec lru_cache q.0 q.1 st) (places ip dec lru_cache es)
      → Member ip e es
      → Gone ip dec lru_cache e.negative e.id st
  unfolding place_of
  Gone-places st e [] h m = elim m [ ]
  Gone-places st e (x ∷ es) h (inl q) = rw q (h.0)
  Gone-places st e (x ∷ es) h (inr m) = Gone-places st e es h.1 m

  pub retain-Member :
      (keep : Entry ip → Bool) (e : Entry ip) (es : List (Entry ip))
      → Member ip e es
      → keep e ≡ true
      → Member ip e (retain keep es)
  unfolding retain
  retain-Member keep e [] m ok = elim m [ ]
  retain-Member keep e (x ∷ es) (inl q) ok =
      let ok_x : keep x ≡ true = rw q at ok in rw (ok_x, retain) (inl q)
  retain-Member keep e (x ∷ es) (inr m) ok = elim (Bool-cases (keep x)) [
    | inl yes_ ↦ rw (yes_, retain) (inr (retain-Member keep e es m ok))
    | inr no_ ↦ rw (no_, retain) (retain-Member keep e es m ok)
  ]

  -- The entries of a bucket that a test picks are removed without a fault; none is left in it.
  pub sweep_lem :
      (key : K) (pick : Entry ip → Bool) (st : State)
      → IsShard ip dec lru_cache st
      → (st' : State) × (remove_all ip dec lru_cache
            (places ip dec lru_cache (retain pick (bucket ip dec lru_cache key st)))
            st
          ≡ some st')
        × IsShard ip dec lru_cache st'
        × Reduced ip dec lru_cache st st'
        × ((e : Entry ip) → Member ip e (bucket ip dec lru_cache key st') → pick e ≡ false)
  sweep_lem key pick st w =
      let (st', run, w', less, gone) =
        remove_all_lem ip dec lru_cache
          (places ip dec lru_cache (retain pick (bucket ip dec lru_cache key st))) st w in
      (
        st',
        run,
        w',
        less,
        λ e m. elim (Bool-cases (pick e)) [
          | inr no_ ↦ no_
          | inl yes_ ↦
              let (c, at_, _, _) = w'.present key e m in
              let out =
                Gone-places st' e _ gone (retain-Member pick e _ ((less.1).fewer key e m) yes_) in
              absurd (clash (sym at_ ∙ out))
        ],
      )
    where
      clash : {A : Type 0} {a : A} → some a ≡ none → ⊥
      clash h = cc

  -- A prune is no fault, and leaves no entry of the key past its retention.
  pub prune_lem :
      (key : K) (now : ℕ) (st : State)
      → IsShard ip dec lru_cache st
      → (st' : State) × (prune ip dec lru_cache key now st ≡ some st')
        × IsShard ip dec lru_cache st'
        × Reduced ip dec lru_cache st st'
        × ((e : Entry ip)
            → Member ip e (bucket ip dec lru_cache key st')
            → leb e.retention (now - e.inserted) ≡ false)
  unfolding prune
  prune_lem key now st w = sweep_lem key (λ (e : Entry ip). leb e.retention (now - e.inserted)) st w
