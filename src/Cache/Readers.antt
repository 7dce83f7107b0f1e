-- ===== src/Cache/Readers.antt =====
-- cache.rs, `Entry::drop`: a reader that lets an entry go.
use pari_ns.Prelude.{
  ℕ, ◌+◌, ◌-◌, ◌≤◌, ◌≡◌, refl, inl, inr, Bool, some, List, arith, ltb, count, choose, ℕ_discrete,
  Bool-cases, Option-cases,
}
use pari_ns.Prelude.Assoc.{lookup, remove, lookup-remove, count-remove}
use pari_ns.Prelude.Tally.{tally-remove}
use pari_ns.Net.{IpNet}
use pari_ns.Cache.Lru.{LruCache}
use pari_ns.Cache.Shard.{Cached, Partition, checked_sub, discharge, take_one, release_held}
use pari_ns.Cache.Partition.{IsPartition, charge_of}

module _ (ip : IpNet) {K W : Type 0} (dec : Discrete K) (lru_cache : LruCache (Cached ip K W)) where
  open lru_cache use {iter}

  choose_le : {P : Type 0} (d : Dec P) (a b : ℕ) → a + b ≤ 1 → a + choose d 0 b ≤ 1
  choose_le (yes p) a b h = omega arith
  choose_le (no n) a b h = h

  -- A reader that lets an entry go never takes the byte counter below zero, and the counter still
  -- counts every entry that is left, in the cache or in the hands of a reader.
  release_held_lem :
      (clock : ℕ) (part : Bool) (p : Partition ip dec lru_cache) (id : ℕ)
      → IsPartition ip dec lru_cache clock part p
      → (p' : Partition ip dec lru_cache) × (release_held ip dec lru_cache id p ≡ some p')
        × IsPartition ip dec lru_cache clock part p'
  unfolding release_held discharge checked_sub
  release_held_lem clock part p id w =
      let left = record p { held = take_one ip dec lru_cache id p.held } in
      elim (Bool-cases (ltb 0 (count ℕ_discrete id left.held))) [
        | inl more ↦ (left, rw (more, release_held) refl, same w left.held)
        | inr last_one ↦ elim (Option-cases (lookup ℕ_discrete id p.orphans)) [
          | inl q ↦ (left, rw (last_one, release_held, q) refl, same w left.held)
          | inr (c, q) ↦
              let once = w.once id in
              let less =
                tally-remove ℕ_discrete (λ d. charge_of ip dec lru_cache d) id c p.orphans q
                  (omega arith) in
              (
                record left {
                  orphans = remove ℕ_discrete id p.orphans;
                  charged = p.charged - c.charge;
                },
                ground (arith, last_one, q, w.exact, less),
                record {
                  filed = w.filed;
                  orphaned = λ j d h.
                      w.orphaned j d (ground (arith, lookup-remove ℕ_discrete id j p.orphans));
                  once = λ j.
                      rw (count-remove ℕ_discrete id j p.orphans)
                        (choose_le (ℕ_discrete id j) _ _ (w.once j));
                  exact = omega (arith, w.exact, less);
                  sized = w.sized;
                  within = omega (arith, w.within);
                },
              )
        ]
      ]
    where
      same :
          IsPartition ip dec lru_cache clock part p
          → (ids : List ℕ) → IsPartition ip dec lru_cache clock part (record p { held = ids })
      same v ids = record {
        filed = v.filed;
        orphaned = v.orphaned;
        once = v.once;
        exact = v.exact;
        sized = v.sized;
        within = v.within;
      }
