-- ===== src/Cache/FailureLaws.antt =====
-- cache.rs, `Cache::admit_failure`: totality, and that no fresh answer gives way to a failure.
use pari_ns.Prelude.{ℕ, ◌≡◌, ◌⊎◌, min, true, false, not, ◌&&◌, Option, some}
use pari_ns.Net.{IpNet}
use pari_ns.Ecs.Scope.{Scope}
use pari_ns.Ecs.Overlap.{scopes_overlap}
use pari_ns.Cache.Decision.{StoreDecision, is_admitted}
use pari_ns.Cache.Lru.{LruCache}
use pari_ns.Cache.Select.{Entry, Failure, Member, is_failure, is_fresh}
use pari_ns.Cache.Shard.{Cached, Shard, bucket}
use pari_ns.Cache.Admit.{Layout, Stored, publish}
use pari_ns.Cache.Store.{Sharing, StoreConfig, Request, Locked}
use pari_ns.Cache.Failing.{stored_failure}
use pari_ns.Cache.Consistent.{IsShard, Reduced}

module _ (ip : IpNet) {K W : Type 0} (dec : Discrete K) (lru_cache : LruCache (Cached ip K W))
    {F : Type 0} (layout : Layout K W) (sharing : Sharing ip K F) where
  abbrev LockedShard : Type 0
  LockedShard = Locked ip dec lru_cache layout sharing

  abbrev State : Type 0
  State = Shard ip dec lru_cache

  -- No entry of the key in scope of the failure is a fresh answer.
  abbrev pub Unanswered : K → Scope ip → ℕ → State → Type 0
  Unanswered key sc now st =
      (e : Entry ip)
      → Member ip e (bucket ip dec lru_cache key st)
      → scopes_overlap ip e.scope sc ≡ true
      → (not (is_failure ip e.failure) && is_fresh ip now e) ≡ false

  -- What the admission of a failure comes to: nothing is added, or it is published after removals
  -- from a bucket that has no fresh answer in its scope.
  pub data FailureAdmission (key : K) (stored : Stored ip W) (now : ℕ) (st : State)
      : StoreDecision → State → Type 0 where
    failure_kept_out :
        (d : StoreDecision) (st' : State)
        → is_admitted d ≡ false
        → Reduced ip dec lru_cache st st'
        → FailureAdmission key stored now st d st'
    failure_taken_in :
        (d : StoreDecision) (st1 st2 : State)
        → is_admitted d ≡ true
        → Reduced ip dec lru_cache st st1
        → Unanswered key stored.scope now st1
        → Reduced ip dec lru_cache st1 st2
        → FailureAdmission key stored now st d (publish ip dec lru_cache layout key stored now st2)

  abbrev pub Decided : K → Stored ip W → ℕ → State → Option (StoreDecision × LockedShard) → Type 0
  Decided key stored now st r =
      (d : StoreDecision) × (l' : LockedShard) × (r ≡ some (d, l'))
      × IsShard ip dec lru_cache l'.shard
      × FailureAdmission key stored now st d l'.shard

  -- What the admission of a failure comes to: a refusal before the lock changes nothing.
  abbrev pub FailureOutcome :
      StoreConfig
      → Request K W F
      → Failure
      → Option W
      → Scope ip
      → ℕ
      → LockedShard
      → Option (StoreDecision × LockedShard)
      → Type 0
  FailureOutcome c req failure w sc now l r =
      ((d : StoreDecision) × (r ≡ some (d, l)) × (is_admitted d ≡ false))
      ⊎ ((key : K) × (wire : W) × (req.key ≡ some key)
          × (w ≡ some wire)
          × Decided key
              (stored_failure ip dec lru_cache layout sharing failure sc wire
                (min c.servfail_ttl req.negative_ttl_cap))
              now l.shard r)
