-- ===== src/Cache/RoundTrip.antt =====
-- cache.rs, `Cache::admit` and then `Cache::lookup`: a client that an answer serves gets it.
use pari_ns.Prelude.{
  subst, ℕ, ◌+◌, ◌-◌, ◌*◌, ◌<◌, ◌≤◌, ◌≡◌, refl, sym, ◌∙◌, ◌⊎◌, inl, inr, ap, Bool, true, false, not,
  ◌&&◌, ◌==◌, Option, some, some_eq, arith, Bool-cases,
}
use pari_ns.Net.{IpNet}
use pari_ns.Ecs.Scope.{Subnet, Scope, matches}
use pari_ns.Cache.Decision.{StoreDecision, DecisionReason, is_admitted, ttl_zero}
use pari_ns.Cache.Lru.{LruCache}
use pari_ns.Cache.Shard.{Cached, Shard}
use pari_ns.Cache.Admit.{Layout, entry_of, cached_of}
use pari_ns.Cache.Store.{
  refused, prepared, Origin, answer, refresh, restore, Sharing, StoreConfig, Request, Locked,
  is_restore, cut_lifetime, stored_of, admit, second,
}
use pari_ns.Cache.Serve.{Found, lookup_locked}
use pari_ns.Cache.Consistent.{IsShard}
use pari_ns.Cache.Admission.{Admission, kept_out, taken_in}
use pari_ns.Cache.AdmitLaws.{admit_total}
use pari_ns.Cache.Published.{lookup_published}

module _ (ip : IpNet) {K W : Type 0} (dec : Discrete K) (lru_cache : LruCache (Cached ip K W))
    {F : Type 0} (layout : Layout K W) (sharing : Sharing ip K F) where
  open lru_cache use {peek}

  abbrev LockedShard : Type 0
  LockedShard = Locked ip dec lru_cache layout sharing

  abbrev State : Type 0
  State = Shard ip dec lru_cache

  cut_answer :
      (origin : Origin) (w : W) (lifetime : ℕ) (negative : Bool)
      → is_restore ip dec lru_cache layout sharing origin ≡ false
      → ((lifetime ≡ 0)
          × (cut_lifetime ip dec lru_cache layout sharing origin (prepared w lifetime negative)
              ≡ refused ttl_zero))
        ⊎ (cut_lifetime ip dec lru_cache layout sharing origin (prepared w lifetime negative)
            ≡ prepared w lifetime negative)
  unfolding cut_lifetime
  cut_answer (restore remaining stamp) w lifetime negative h = cc
  cut_answer answer w lifetime negative h = elim (Bool-cases (lifetime == 0)) [
    | inl z ↦ inl (ground arith, rw (z, cut_lifetime) refl)
    | inr n ↦ inr (rw (n, cut_lifetime) refl)
  ]
  cut_answer refresh w lifetime negative h = elim (Bool-cases (lifetime == 0)) [
    | inl z ↦ inl (ground arith, rw (z, cut_lifetime) refl)
    | inr n ↦ inr (rw (n, cut_lifetime) refl)
  ]

  unprepared :
      {w : W} {lifetime : ℕ} {negative : Bool} {reason : DecisionReason}
      → refused reason ≡ prepared w lifetime negative
      → ⊥
  unprepared h = cc

  same_prepared :
      {w w' : W} {lifetime lifetime' : ℕ} {negative negative' : Bool}
      → prepared w lifetime negative ≡ prepared w' lifetime' negative'
      → (w ≡ w') × (lifetime ≡ lifetime')
  same_prepared h = (cc, cc)

  kept_longer :
      (c : StoreConfig) (req : Request K W F) (origin : Origin) (sc : Scope ip) (w : W)
      (lifetime : ℕ) (negative : Bool)
      → (stored_of ip dec lru_cache layout sharing c req origin sc w lifetime negative).lifetime
        ≤ (stored_of ip dec lru_cache layout sharing c req origin sc w lifetime negative).retention
  unfolding stored_of
  kept_longer c req origin sc w lifetime negative = elim (Bool-cases (req.stale && not negative)) [
    | inl q ↦ rw (q, stored_of) (omega arith)
    | inr q ↦ rw (q, stored_of) (omega arith)
  ]

  -- The wire, the key and the scope of what a lookup finds.
  abbrev pub Finds : W → K → Scope ip → Option (Found ip dec lru_cache) → Type 0
  Finds w key sc r =
      (found : Found ip dec lru_cache) × (c : Cached ip K W) × (r ≡ some found)
      × (found.entry ≡ some c)
      × (c.wire ≡ w)
      × (c.key ≡ key)
      × (c.fixed.scope ≡ sc)

  Admission-Finds :
      (c : StoreConfig) (req : Request K W F) (origin : Origin) (key : K) (sc : Scope ip)
      (now later : ℕ) (w : W) (lifetime : ℕ) (negative : Bool) (client : Option Subnet)
      (is_observed : Bool) (st st' : State) (d : StoreDecision)
      → req.prepared ≡ prepared w lifetime negative
      → is_restore ip dec lru_cache layout sharing origin ≡ false
      → is_admitted d ≡ true
      → matches ip sc client ≡ true
      → later - now < lifetime * second
      → Admission ip dec lru_cache layout sharing c req origin key sc now st d st'
      → Finds w key sc (lookup_locked ip dec lru_cache key client later false is_observed st')
  unfolding stored_of cached_of entry_of
  Admission-Finds c req origin key sc now later w lifetime negative client is_observed st _ _ prep
        kind ok serves fresh (kept_out d st' no_ _) =
      absurd (clash (sym no_ ∙ ok))
    where
      clash : false ≡ true → ⊥
      clash h = cc
  Admission-Finds c req origin key sc now later w lifetime negative client is_observed st _ _ prep
        kind ok serves fresh (taken_in d w' lifetime' negative' st1 _ cut good _ clear) =
      let cut' : cut_lifetime ip dec lru_cache layout sharing origin (prepared w lifetime negative)
          ≡ prepared w' lifetime' negative' =
        ap (λ p. cut_lifetime ip dec lru_cache layout sharing origin p) (sym prep) ∙ cut in
      elim (cut_answer origin w lifetime negative kind) [
        | inl (_, z) ↦ absurd (unprepared (sym z ∙ cut'))
        | inr z ↦
            let (same_w, same_lifetime) = same_prepared (sym z ∙ cut') in
            let stored =
              stored_of ip dec lru_cache layout sharing c req origin sc w' lifetime' negative' in
            let (found, run, entry) =
              lookup_published ip dec lru_cache layout sharing key stored now later client
                is_observed st1 good clear serves (rw (← same_lifetime) fresh)
                (kept_longer c req origin sc w' lifetime' negative') in
            (
              found,
              cached_of ip dec lru_cache layout key (st1.clock + 1) stored now,
              run,
              entry,
              sym same_w,
              refl,
              refl,
            )
      ]

  same_run :
      {d d' : StoreDecision} {l l' : LockedShard}
      → ◌≡◌ {A = Option (StoreDecision × LockedShard)} (some (d, l)) (some (d', l'))
      → (d ≡ d') × (l ≡ l')
  same_run h = (cc, cc)

  own_scope :
      (c : StoreConfig) (x : Bool) {seen sc : Scope ip}
      → c.sharing_enabled ≡ false
      → (seen ≡ sc) ⊎ ((c.sharing_enabled && x) ≡ true)
      → seen ≡ sc
  own_scope c x off (inl q) = q
  own_scope c x off (inr on) = absurd (ground arith)

  -- An answer that was admitted is what a client gets: where answers are not shared between
  -- networks, a lookup of its key for a client that its scope serves finds its wire bytes under its
  -- scope, for as long as its lifetime lasts.
  pub admit-lookup :
      (c : StoreConfig) (req : Request K W F) (origin : Origin) (key : K) (sc : Scope ip)
      (now later epoch current : ℕ) (w : W) (lifetime : ℕ) (negative : Bool)
      (client : Option Subnet) (is_observed : Bool) (l l' : LockedShard) (d : StoreDecision)
      → IsShard ip dec lru_cache l.shard
      → c.sharing_enabled ≡ false
      → is_restore ip dec lru_cache layout sharing origin ≡ false
      → req.key ≡ some key
      → req.prepared ≡ prepared w lifetime negative
      → admit ip dec lru_cache layout sharing c req origin sc now epoch current l ≡ some (d, l')
      → is_admitted d ≡ true
      → matches ip sc client ≡ true
      → later - now < lifetime * second
      → Finds w key sc (lookup_locked ip dec lru_cache key client later false is_observed l'.shard)
  admit-lookup c req origin key sc now later epoch current w lifetime negative client is_observed l
        l' d good off kind key_ prep run ok serves fresh =
      elim (admit_total ip dec lru_cache layout sharing c req origin sc now epoch current l good) [
        | inl (d', run', no_) ↦
            absurd
              (clash (sym no_ ∙ ap (λ x. is_admitted x) (sym (same_run (sym run ∙ run')).0) ∙ ok))
        | inr (k, key', (seen, keeps, (d', l2, run', _, a))) ↦
            let (same_d, same_l) = same_run (sym run ∙ run') in
            let same_k : k ≡ key = some_eq (sym key' ∙ key_) in
            let same_sc : seen ≡ sc = own_scope c _ off keeps in
            let finds =
              Admission-Finds c req origin k seen now later w lifetime negative client is_observed
                l.shard l2.shard d' prep kind (ap (λ x. is_admitted x) (sym same_d) ∙ ok)
                (ap (λ x. matches ip x client) same_sc ∙ serves) fresh a in
            subst
              (λ x.
                Finds w x sc
                  (lookup_locked ip dec lru_cache x client later false is_observed l'.shard))
              same_k
              (subst
                (λ x.
                  Finds w k x
                    (lookup_locked ip dec lru_cache k client later false is_observed l'.shard))
                same_sc
                (subst
                  (λ x.
                    Finds w k seen
                      (lookup_locked ip dec lru_cache k client later false is_observed x.shard))
                  (sym same_l) finds))
      ]
    where
      clash : false ≡ true → ⊥
      clash h = cc
