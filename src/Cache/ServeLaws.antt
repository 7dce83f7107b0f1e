-- ===== src/Cache/ServeLaws.antt =====
-- cache.rs, `Cache::lookup_inner`: totality, and that nothing but what may serve is served.
use pari_ns.Prelude.{
  ℕ, ◌+◌, ◌≡◌, refl, sym, ◌∙◌, ◌⊎◌, inl, inr, ap, Bool, true, false, not, Option, none, some, arith,
  Bool-cases, Option-cases, if◌then◌else◌,
}
use pari_ns.Prelude.Assoc.{lookup}
use pari_ns.Net.{IpNet}
use pari_ns.Ecs.Scope.{Subnet}
use pari_ns.Cache.Lru.{LruCache}
use pari_ns.Cache.Select.{Entry, Member, place_of, select}
use pari_ns.Cache.Best.{Serves, select-Serves}
use pari_ns.Cache.Shard.{Cached, Shard, bucket, hold, flag}
use pari_ns.Cache.Serve.{Found, touch, lookup_locked}
use pari_ns.Cache.Growth.{promote-Reordered}
use pari_ns.Cache.Alike.{Reordered-refl, Alike-IsShard}
use pari_ns.Cache.Consistent.{IsShard}
use pari_ns.Cache.Sweep.{prune_lem}

module _ (ip : IpNet) {K W : Type 0} (dec : Discrete K) (lru_cache : LruCache (Cached ip K W)) where
  open lru_cache use {peek, promote}

  abbrev State : Type 0
  State = Shard ip dec lru_cache

  hold-IsShard :
      (part : Bool) (id : ℕ) (st : State)
      → IsShard ip dec lru_cache st
      → IsShard ip dec lru_cache (hold ip dec lru_cache part id st)
  hold-IsShard part id st w =
      Alike-IsShard ip dec lru_cache part _ st.clock st (omega arith)
        (record {
          reordered = Reordered-refl ip dec lru_cache (st.partitions part).lru;
          same_orphans = refl;
          same_charged = refl;
          same_entries = refl;
          same_bytes = refl;
        })
        w

  touch-IsShard :
      (part : Bool) (id : ℕ) (c : Cached ip K W) (now : ℕ) (st : State)
      → peek id (st.partitions part).lru ≡ some c
      → IsShard ip dec lru_cache st
      → IsShard ip dec lru_cache (touch ip dec lru_cache part id c now st)
  unfolding touch
  touch-IsShard part id c now st h w =
      Alike-IsShard ip dec lru_cache part _ (st.clock + 1) st (omega arith)
        (record {
          reordered = promote-Reordered ip dec lru_cache id c (st.partitions part).lru h;
          same_orphans = refl;
          same_charged = refl;
          same_entries = refl;
          same_bytes = refl;
        })
        w

  -- What is served is the key's, in scope, within its retention and fresh, unless stale entries
  -- are asked for, and then no failure.
  abbrev pub Served : K → Option Subnet → ℕ → Bool → State → Option (Cached ip K W) → Type 0
  Served key outgoing now allow_stale st o =
      (o ≡ none)
      ⊎ ((c : Cached ip K W) × (o ≡ some c)
          × (c.key ≡ key)
          × Member ip c.fixed (bucket ip dec lru_cache key st)
          × Serves ip outgoing now allow_stale c.fixed)

  place_lem : (e : Entry ip) → place_of ip e ≡ (e.negative, e.id)
  unfolding place_of
  place_lem e = refl

  selected_lem :
      (key : K) (outgoing : Option Subnet) (now : ℕ) (allow_stale : Bool) (st : State)
      (place : Bool × ℕ)
      → select ip (lookup dec key st.buckets) outgoing now allow_stale ≡ some place
      → (e : Entry ip) × Member ip e (bucket ip dec lru_cache key st)
        × (place ≡ place_of ip e)
        × Serves ip outgoing now allow_stale e
  unfolding select
  selected_lem key outgoing now allow_stale st place h =
      elim (Option-cases (lookup dec key st.buckets)) [
        | inl q ↦ absurd (clash (sym (rw (q, select) at h)))
        | inr (es, q) ↦
            let (e, m, same, good) =
              select-Serves ip outgoing now allow_stale es place (rw q at h) in
            (e, rw q m, same, good)
      ]
    where
      clash : {A : Type 0} {a : A} → some a ≡ none → ⊥
      clash h = cc

  abbrev served : Bool → Bool → ℕ → Cached ip K W → ℕ → State → State
  served is_observed part id c now st =
      hold ip dec lru_cache part id
        (if is_observed then touch ip dec lru_cache part id c now st else st)

  served-IsShard :
      (is_observed part : Bool) (id : ℕ) (c : Cached ip K W) (now : ℕ) (st : State)
      → peek id (st.partitions part).lru ≡ some c
      → IsShard ip dec lru_cache st
      → IsShard ip dec lru_cache (served is_observed part id c now st)
  served-IsShard true part id c now st h w =
      hold-IsShard part id (touch ip dec lru_cache part id c now st)
        (touch-IsShard part id c now st h w)
  served-IsShard false part id c now st h w = hold-IsShard part id st w

  -- A lookup in a consistent shard is no panic, leaves it consistent, and finds nothing or an entry
  -- of the key that may answer: in scope of the client, within its retention, and fresh unless
  -- stale entries are asked for, and then no failure.
  pub lookup_total :
      (key : K) (outgoing : Option Subnet) (now : ℕ) (allow_stale is_observed : Bool) (st : State)
      → IsShard ip dec lru_cache st
      → (found : Found ip dec lru_cache) × (lookup_locked ip dec lru_cache key outgoing now
            allow_stale is_observed st
          ≡ some found)
        × IsShard ip dec lru_cache found.shard
        × Served key outgoing now allow_stale st found.entry
  unfolding lookup_locked
  lookup_total key outgoing now allow_stale is_observed st w =
      elim (Option-cases (select ip (lookup dec key st.buckets) outgoing now allow_stale)) [
        | inl q ↦ elim (Bool-cases is_observed) [
          | inr no_ ↦
              (record { entry = none; shard = st }, rw (q, lookup_locked, no_) refl, w, inl refl)
          | inl yes_ ↦
              let (st', run, w', _, _) = prune_lem ip dec lru_cache key now st w in
              (
                record {
                  entry = none;
                  shard = record st' {
                    counts = record st'.counts {
                      misses = st'.counts.misses + flag (not allow_stale);
                    };
                  };
                },
                rw (q, lookup_locked, yes_, run) refl,
                w',
                inl refl,
              )
        ]
        | inr (place, q) ↦
            let (e, m, same, good) = selected_lem key outgoing now allow_stale st place q in
            let (c, at_, own, fixed) = w.present key e m in
            let q' : select ip (lookup dec key st.buckets) outgoing now allow_stale
                ≡ some (e.negative, e.id) =
              q ∙ ap (λ x. some x) (same ∙ place_lem e) in
            (
              record { entry = some c; shard = served is_observed e.negative e.id c now st },
              rw (q', lookup_locked, at_) refl,
              served-IsShard is_observed e.negative e.id c now st at_ w,
              inr (c, refl, own, rw fixed m, rw fixed good),
            )
      ]
