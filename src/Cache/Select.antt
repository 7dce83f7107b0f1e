-- ===== src/Cache/Select.antt =====
-- cache.rs, `Shard::select`: which entry of a bucket answers a query. Of an entry this keeps what
-- the choice reads.
use pari_ns.Prelude.{
  ℕ, ◌-◌, ◌≡◌, ◌⊎◌, Bool, true, false, not, ◌&&◌, ◌||◌, Option, none, some, List, [], ◌∷◌, ltb, leb,
  if◌then◌else◌,
}
use pari_ns.Net.{IpNet}
use pari_ns.Ecs.Scope.{Subnet, Scope, matches, scope_prefix_len}

pub data Failure : Type 0 where
  stale_fallback final : Failure

module _ (ip : IpNet) where
  pub record Entry : Type 0 where
    pub id : ℕ
    pub scope : Scope ip
    pub inserted : ℕ
    pub lifetime : ℕ
    pub retention : ℕ
    pub negative : Bool
    pub failure : Option Failure

  abbrev pub is_failure : Option Failure → Bool
  is_failure none = false
  is_failure (some f) = true

  abbrev pub is_fresh : ℕ → Entry → Bool
  is_fresh now e = ltb (now - e.inserted) e.lifetime

  -- The filter: only a stale fallback takes stale entries, and it takes no failure.
  unfoldable pub is_eligible : Option Subnet → ℕ → Bool → Entry → Bool
  is_eligible outgoing now allow_stale e =
      matches ip e.scope outgoing
      && ltb (now - e.inserted) e.retention
      && (is_fresh now e || allow_stale)
      && not (allow_stale && is_failure e.failure)

  -- The order of the ranks, a pair of freshness and prefix length.
  unfoldable pub rank_le : ℕ → Entry → Entry → Bool
  rank_le now a b =
      if is_fresh now a
      then is_fresh now b && leb (scope_prefix_len ip a.scope) (scope_prefix_len ip b.scope)
      else is_fresh now b || leb (scope_prefix_len ip a.scope) (scope_prefix_len ip b.scope)

  -- `max_by_key`: of equal ranks the later entry is kept.
  unfoldable pub later_best : ℕ → Option Entry → Entry → Option Entry
  later_best now none e = some e
  later_best now (some b) e = if rank_le now b e then some e else some b

  unfoldable pub best_from : Option Subnet → ℕ → Bool → Option Entry → List Entry → Option Entry
  best_from outgoing now allow_stale best [] = best
  best_from outgoing now allow_stale best (e ∷ es) =
      if is_eligible outgoing now allow_stale e
      then best_from outgoing now allow_stale (later_best now best e) es
      else best_from outgoing now allow_stale best es

  -- The partition and the id of an entry; the partition of index 1 is that of negative entries.
  unfoldable pub place_of : Entry → Bool × ℕ
  place_of e = (e.negative, e.id)

  -- `Shard::select` on the bucket of the key, none where there is none.
  unfoldable pub select : Option (List Entry) → Option Subnet → ℕ → Bool → Option (Bool × ℕ)
  select none outgoing now allow_stale = none
  select (some es) outgoing now allow_stale = elim (best_from outgoing now allow_stale none es) [
    | none ↦ none
    | some e ↦ some (place_of e)
  ]

  abbrev pub Member : Entry → List Entry → Type 0
  Member e [] = ⊥
  Member e (x ∷ xs) = (e ≡ x) ⊎ Member e xs
