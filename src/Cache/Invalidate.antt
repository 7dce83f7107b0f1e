-- ===== src/Cache/Invalidate.antt =====
-- cache.rs, `Cache::invalidate`, on one shard.
use pari_ns.Prelude.{
  ℕ, Bool, true, false, Option, none, some, List, [], ◌∷◌, ◌++◌, ◌&&◌, ◌||◌, if◌then◌else◌, ite,
  length,
}
use pari_ns.Net.{IpNet}
use pari_ns.Ecs.Scope.{Scope, no_ecs, privacy, network, exact_source, learned, same}
use pari_ns.Ecs.Overlap.{learned_serves}
use pari_ns.Cache.Lru.{LruCache}
use pari_ns.Cache.Shard.{Cached, remove_all}
use pari_ns.Cache.Admit.{Layout}
use pari_ns.Cache.Store.{Sharing, Locked}

module _ (ip : IpNet) {K W : Type 0} (dec : Discrete K) (lru_cache : LruCache (Cached ip K W))
    {F : Type 0} (layout : Layout K W) (sharing : Sharing ip K F) where
  open lru_cache use {iter}
  open ip use {net_discrete}
  open sharing use {forget}

  abbrev LockedShard : Type 0
  LockedShard = Locked ip dec lru_cache layout sharing

  -- `==` of scopes.
  unfoldable pub same_scope : Scope ip → Scope ip → Bool
  same_scope no_ecs no_ecs = true
  same_scope (privacy a) (privacy b) = same a b
  same_scope (network n) (network m) = ite (net_discrete n m) true false
  same_scope (exact_source n) (exact_source m) = ite (net_discrete n m) true false
  same_scope (learned a) (learned b) = same a b
  same_scope _ _ = false

  -- The scope test of an invalidation.
  unfoldable pub by_scope : Option (Scope ip) → Scope ip → Bool
  by_scope none sc = true
  by_scope (some s) sc = same_scope sc s || learned_serves ip sc s

  -- The entries of a partition that an invalidation names; `by_key` tests the name and the type.
  unfoldable pub named :
      (K → Bool) → Option (Scope ip) → Bool → List (ℕ × Cached ip K W) → List (Bool × ℕ)
  named by_key sc part [] = []
  named by_key sc part ((id, c) ∷ items) =
      let rest = named by_key sc part items in
      if by_key c.key && by_scope sc c.fixed.scope then (part, id) ∷ rest else rest

  -- `Cache::invalidate` on one shard; the cache advances its epoch while it holds every shard.
  unfoldable pub invalidate_shard :
      (K → Bool) → Option (Scope ip) → LockedShard → Option (ℕ × LockedShard)
  invalidate_shard by_key sc l =
      let matched =
        named by_key sc false (iter (l.shard.partitions false).lru)
        ++ named by_key sc true (iter (l.shard.partitions true).lru) in
      elim (remove_all ip dec lru_cache matched l.shard) [
        | none ↦ none
        | some st ↦ some (length matched, record { shard = st; table = forget by_key sc l.table })
      ]
