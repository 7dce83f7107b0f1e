-- ===== src/Cache/Partition.antt =====
-- cache.rs, `Partition`: what its operations keep true of its entries and its byte counter.
use pari_ns.Prelude.{
  ℕ, ◌+◌, ◌-◌, ◌≤◌, ◌<◌, ◌≡◌, refl, sym, ◌∙◌, inl, inr, subst, Bool, some, List, ◌∷◌, arith, ltb,
  count, choose, ℕ_discrete, Bool-cases,
}
use pari_ns.Prelude.Assoc.{
  keys, lookup, remove, lookup-remove, count-remove, count-pos, length-remove-le,
}
use pari_ns.Prelude.Tally.{tally, tally-remove}
use pari_ns.Net.{IpNet}
use pari_ns.Cache.Lru.{LruCache}
use pari_ns.Cache.Shard.{Cached, Partition, checked_sub, discharge, take_out}

module _ (ip : IpNet) {K W : Type 0} (dec : Discrete K) (lru_cache : LruCache (Cached ip K W)) where
  open lru_cache use {
    Table, iter, len, peek, pop, put, demote, promote, single, len_iter, peek_iter, iter_pop,
    iter_put, iter_promote, iter_demote,
  }

  abbrev Part : Type 0
  Part = Partition ip dec lru_cache

  abbrev pub charge_of : Cached ip K W → ℕ
  charge_of c = c.charge

  -- The bytes of a map's entries.
  abbrev pub bytes_of : List (ℕ × Cached ip K W) → ℕ
  bytes_of m = tally ℕ_discrete charge_of m

  pub record IsPartition (clock : ℕ) (part : Bool) (p : Part) : Type 0 where
    pub filed :
        (id : ℕ) (c : Cached ip K W)
        → peek id p.lru ≡ some c
        → (c.fixed.id ≡ id) × (c.fixed.negative ≡ part) × (id ≤ clock)
    pub orphaned :
        (id : ℕ) (c : Cached ip K W) → lookup ℕ_discrete id p.orphans ≡ some c → id ≤ clock
    pub once :
        (id : ℕ)
        → count ℕ_discrete id (keys (iter p.lru)) + count ℕ_discrete id (keys p.orphans) ≤ 1
    pub exact : p.charged ≡ bytes_of (iter p.lru) + bytes_of p.orphans
    pub sized : len p.lru ≤ p.max_entries
    pub within : p.charged ≤ p.max_bytes

  peek-pop :
      (id j : ℕ) (t : Table) (c : Cached ip K W) → peek j (pop id t) ≡ some c → peek j t ≡ some c
  peek-pop id j t c h =
      let e : lookup ℕ_discrete j (remove ℕ_discrete id (iter t)) ≡ some c =
        rw (peek_iter j (pop id t), iter_pop id t) at h in
      rw (peek_iter j t) (ground (arith, lookup-remove ℕ_discrete id j (iter t)))

  len-pop : (id : ℕ) (t : Table) → len (pop id t) ≤ len t
  len-pop id t =
      rw (len_iter (pop id t), iter_pop id t, len_iter t) (length-remove-le ℕ_discrete id (iter t))

  bytes-pop :
      (id : ℕ) (t : Table) (c : Cached ip K W)
      → peek id t ≡ some c
      → bytes_of (iter t) ≡ c.charge + bytes_of (iter (pop id t))
  bytes-pop id t c h =
      rw (iter_pop id t)
        (tally-remove ℕ_discrete charge_of id c (iter t) (sym (peek_iter id t) ∙ h) (single t id))

  count-pop :
      (id j : ℕ) (t : Table)
      → count ℕ_discrete j (keys (iter (pop id t)))
        ≡ choose (ℕ_discrete id j) 0 (count ℕ_discrete j (keys (iter t)))
  count-pop id j t = rw (iter_pop id t) (count-remove ℕ_discrete id j (iter t))

  count-peek :
      (id : ℕ) (t : Table) (c : Cached ip K W)
      → peek id t ≡ some c
      → 0 < count ℕ_discrete id (keys (iter t))
  count-peek id t c h = count-pos ℕ_discrete id (iter t) c (sym (peek_iter id t) ∙ h)

  orphan_once :
      (id j : ℕ) (a b : ℕ)
      → (id ≡ j → 0 < a)
      → a + b ≤ 1
      → choose (ℕ_discrete id j) 0 a + (choose (ℕ_discrete id j) 1 0 + b) ≤ 1
  orphan_once id j a b h w =
      elim (ℕ_discrete id j) as (λ d. choose d 0 a + (choose d 1 0 + b) ≤ 1) [
        | yes e ↦ omega (arith, h e)
        | no n ↦ omega arith
      ]

  choose_le : {P : Type 0} (d : Dec P) (a b : ℕ) → a + b ≤ 1 → choose d 0 a + b ≤ 1
  choose_le (yes p) a b h = omega arith
  choose_le (no n) a b h = h

  -- An entry that is taken out leaves a partition whose counter still counts what is left.
  pub take_out_lem :
      (clock : ℕ) (part : Bool) (p : Part) (id : ℕ) (c : Cached ip K W)
      → peek id p.lru ≡ some c
      → IsPartition clock part p
      → (p' : Part) × (take_out ip dec lru_cache id c p ≡ some p')
        × IsPartition clock part p'
        × (p'.lru ≡ pop id p.lru)
        × (p'.max_entries ≡ p.max_entries)
        × (p'.max_bytes ≡ p.max_bytes)
        × (p'.charged ≤ p.charged)
  unfolding take_out discharge checked_sub tally count lookup
  take_out_lem clock part p id c h w = elim (Bool-cases (ltb 0 (count ℕ_discrete id p.held))) [
    | inl held ↦ (
      record p { lru = pop id p.lru; orphans = (id, c) ∷ p.orphans },
      rw (held, take_out) refl,
      record {
        filed = λ j d e. w.filed j d (peek-pop id j p.lru d e);
        orphaned = λ j d e. now_orphaned j d e;
        once = λ j. rw (count-pop id j p.lru) (
            orphan_once id j _ _
              (λ e.
                subst (λ i. 0 < count ℕ_discrete i (keys (iter p.lru))) e (count-peek id p.lru c h))
              (w.once j));
        exact = omega (arith, w.exact, bytes-pop id p.lru c h);
        sized = omega (arith, w.sized, len-pop id p.lru);
        within = w.within;
      },
      refl,
      refl,
      refl,
      omega arith,
    )
    | inr free ↦ (
      record p { lru = pop id p.lru; charged = p.charged - c.charge },
      ground (arith, free, w.exact, bytes-pop id p.lru c h),
      record {
        filed = λ j d e. w.filed j d (peek-pop id j p.lru d e);
        orphaned = w.orphaned;
        once = λ j. rw (count-pop id j p.lru) (choose_le (ℕ_discrete id j) _ _ (w.once j));
        exact = omega (arith, w.exact, bytes-pop id p.lru c h);
        sized = omega (arith, w.sized, len-pop id p.lru);
        within = omega (arith, w.within);
      },
      refl,
      refl,
      refl,
      omega arith,
    )
  ]
    where
      now_orphaned :
          (j : ℕ) (d : Cached ip K W)
          → lookup ℕ_discrete j ((id, c) ∷ p.orphans) ≡ some d
          → j ≤ clock
      now_orphaned j d e = elim (ℕ_discrete id j) [
        | yes q ↦ rw (← q) ((w.filed id c h).2)
        | no n ↦ w.orphaned j d (ground arith)
      ]
