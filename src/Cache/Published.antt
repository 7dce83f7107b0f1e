-- ===== src/Cache/Published.antt =====
-- cache.rs: what a lookup finds once an entry is published.
use pari_ns.Prelude.{
  ℕ, ◌+◌, ◌-◌, ◌<◌, ◌≤◌, ◌≡◌, refl, sym, ◌∙◌, inl, inr, ap, Bool, true, false, Option, some, List,
  [], ◌∷◌, ◌++◌, arith, if◌then◌else◌,
}
use pari_ns.Prelude.Assoc.{lookup, lookup-insert_self}
use pari_ns.Net.{IpNet}
use pari_ns.Ecs.Scope.{Subnet, matches}
use pari_ns.Ecs.Overlap.{scopes_overlap, overlap_of_match}
use pari_ns.Cache.Lru.{LruCache}
use pari_ns.Cache.Select.{Entry, Member, is_eligible, place_of, select}
use pari_ns.Cache.Best.{select-Serves, select-NotPreferred}
use pari_ns.Cache.Shard.{Cached, Shard, bucket, hold}
use pari_ns.Cache.Admit.{Layout, Stored, publish, entry_of, cached_of}
use pari_ns.Cache.Store.{Sharing, Locked}
use pari_ns.Cache.Serve.{Found, touch, lookup_locked}
use pari_ns.Cache.Consistent.{IsShard}
use pari_ns.Cache.Publish.{Member-snoc, Member-snoc_new, peek-publish}
use pari_ns.Cache.Admission.{Clear}

module _ (ip : IpNet) {K W : Type 0} (dec : Discrete K) (lru_cache : LruCache (Cached ip K W))
    {F : Type 0} (layout : Layout K W) (sharing : Sharing ip K F) where
  open lru_cache use {peek}

  abbrev LockedShard : Type 0
  LockedShard = Locked ip dec lru_cache layout sharing

  abbrev State : Type 0
  State = Shard ip dec lru_cache

  -- Where a new entry is the only one of its bucket in scope of a client, it is selected.
  select-snoc :
      (es : List (Entry ip)) (e : Entry ip) (client : Option Subnet) (later : ℕ)
      → ((x : Entry ip) → Member ip x es → scopes_overlap ip x.scope e.scope ≡ false)
      → is_eligible ip client later false e ≡ true
      → matches ip e.scope client ≡ true
      → select ip (some (es ++ e ∷ [])) client later false ≡ some (e.negative, e.id)
  unfolding place_of
  select-snoc es e client later clear ok serves =
      let (b, q, _, _) =
        select-NotPreferred ip client later false (es ++ e ∷ []) e
          (Member-snoc_new ip dec lru_cache layout e es) ok in
      let (x, m, place, good) =
        select-Serves ip client later false (es ++ e ∷ []) (place_of ip b) q in
      elim (Member-snoc ip dec lru_cache layout x e es m) [
        | inl old ↦ absurd (
            clash
              (sym (clear x old) ∙ overlap_of_match ip x.scope e.scope client good.in_scope serves))
        | inr same ↦ q ∙ ap (λ z. some z) (place ∙ ap (λ z. place_of ip z) same)
      ]
    where
      clash : false ≡ true → ⊥
      clash h = cc

  lookup-publish :
      (key : K) (stored : Stored ip W) (now : ℕ) (st : State)
      → lookup dec key (publish ip dec lru_cache layout key stored now st).buckets
        ≡ some (
            bucket ip dec lru_cache key st
            ++ entry_of ip dec lru_cache layout (st.clock + 1) stored now ∷ [])
  unfolding publish
  lookup-publish key stored now st = lookup-insert_self dec key _ st.buckets

  eligible_new :
      (id : ℕ) (stored : Stored ip W) (now later : ℕ) (client : Option Subnet)
      → matches ip stored.scope client ≡ true
      → later - now < stored.lifetime
      → stored.lifetime ≤ stored.retention
      → is_eligible ip client later false (entry_of ip dec lru_cache layout id stored now) ≡ true
  unfolding is_eligible entry_of
  eligible_new id stored now later client serves fresh keep = ground arith

  lookup_hit :
      (key : K) (client : Option Subnet) (now : ℕ) (is_observed : Bool) (st : State) (part : Bool)
      (id : ℕ) (c : Cached ip K W)
      → select ip (lookup dec key st.buckets) client now false ≡ some (part, id)
      → peek id (st.partitions part).lru ≡ some c
      → lookup_locked ip dec lru_cache key client now false is_observed st
        ≡ some (record {
          entry = some c;
          shard =
              hold ip dec lru_cache part id
                (if is_observed then touch ip dec lru_cache part id c now st else st);
        })
  unfolding lookup_locked
  lookup_hit key client now is_observed st part id c h k = rw (lookup_locked, h, k) refl

  -- After an entry is published into a bucket that is clear of its scope, a lookup for a client that
  -- the scope serves finds it, for as long as it lives.
  pub lookup_published :
      (key : K) (stored : Stored ip W) (now later : ℕ) (client : Option Subnet) (is_observed : Bool)
      (st : State)
      → IsShard ip dec lru_cache st
      → Clear ip dec lru_cache layout sharing key stored.scope st
      → matches ip stored.scope client ≡ true
      → later - now < stored.lifetime
      → stored.lifetime ≤ stored.retention
      → (found : Found ip dec lru_cache) × (lookup_locked ip dec lru_cache key client later false
            is_observed
            (publish ip dec lru_cache layout key stored now st)
          ≡ some found)
        × (found.entry ≡ some (cached_of ip dec lru_cache layout key (st.clock + 1) stored now))
  unfolding lookup_locked entry_of
  lookup_published key stored now later client is_observed st w clear serves fresh keep =
      let e = entry_of ip dec lru_cache layout (st.clock + 1) stored now in
      let found_ =
        select-snoc (bucket ip dec lru_cache key st) e client later clear
          (eligible_new (st.clock + 1) stored now later client serves fresh keep) serves in
      let c = cached_of ip dec lru_cache layout key (st.clock + 1) stored now in
      let st' = publish ip dec lru_cache layout key stored now st in
      (
        record {
          entry = some c;
          shard = hold ip dec lru_cache stored.negative (st.clock + 1) (
              if is_observed
              then touch ip dec lru_cache stored.negative (st.clock + 1) c later st'
              else st');
        },
        lookup_hit key client later is_observed st' stored.negative (st.clock + 1) c
            (ap (λ es. select ip es client later false) (lookup-publish key stored now st) ∙ found_)
            (peek-publish ip dec lru_cache layout key stored now st w),
        refl,
      )
