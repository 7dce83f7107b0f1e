-- ===== src/Cache/Alike.antt =====
-- cache.rs, `Shard`: changes of a partition that keep what it holds, such as the order of use, the
-- readers and the eviction counters.
use pari_ns.Prelude.{ℕ, ◌≤◌, ◌≡◌, refl, sym, ◌∙◌, Bool, none, some, arith}
use pari_ns.Net.{IpNet}
use pari_ns.Cache.Lru.{LruCache}
use pari_ns.Cache.Shard.{Cached, Partition, Shard, update}
use pari_ns.Cache.Partition.{IsPartition, charge_of}
use pari_ns.Cache.Growth.{Reordered}
use pari_ns.Cache.Consistent.{
  IsShard, Reduced, total, total-update, learned_flag, failure_flag, update_rule,
}

module _ (ip : IpNet) {K W : Type 0} (dec : Discrete K) (lru_cache : LruCache (Cached ip K W)) where
  open lru_cache use {Table, iter, len, peek}

  abbrev State : Type 0
  State = Shard ip dec lru_cache

  abbrev Part : Type 0
  Part = Partition ip dec lru_cache

  pub Reordered-refl : (t : Table) → Reordered ip dec lru_cache t t
  Reordered-refl t = record {
    same = λ j. refl;
    counted = λ j. refl;
    tallied = λ f. refl;
    as_long = refl;
  }

  -- The two hold the same entries under the same limits.
  pub record Alike (p p' : Part) : Type 0 where
    pub reordered : Reordered ip dec lru_cache p.lru p'.lru
    pub same_orphans : p'.orphans ≡ p.orphans
    pub same_charged : p'.charged ≡ p.charged
    pub same_entries : p'.max_entries ≡ p.max_entries
    pub same_bytes : p'.max_bytes ≡ p.max_bytes

  Alike-IsPartition :
      (clock clock' : ℕ) (part : Bool) (p p' : Part)
      → clock ≤ clock'
      → Alike p p'
      → IsPartition ip dec lru_cache clock part p
      → IsPartition ip dec lru_cache clock' part p'
  Alike-IsPartition clock clock' part p p' le a w = record {
    filed = λ id c h.
        let (i, n, bound) = w.filed id c (sym (a.reordered.same id) ∙ h) in (i, n, omega arith);
    orphaned = λ id c h. let bound = w.orphaned id c (rw a.same_orphans at h) in omega arith;
    once = λ id. rw (a.reordered.counted id, a.same_orphans) (w.once id);
    exact =
        rw (a.same_charged, a.same_orphans)
          (omega (arith, w.exact, a.reordered.tallied (λ c. charge_of ip dec lru_cache c)));
    sized = rw (a.reordered.as_long, a.same_entries) w.sized;
    within = rw (a.same_charged, a.same_bytes) w.within;
  }

  pub later-IsPartition :
      (clock clock' : ℕ) (part : Bool) (p : Part)
      → clock ≤ clock'
      → IsPartition ip dec lru_cache clock part p
      → IsPartition ip dec lru_cache clock' part p
  later-IsPartition clock clock' part p le w = record {
    filed = λ id c h. let (i, n, bound) = w.filed id c h in (i, n, omega arith);
    orphaned = λ id c h. let bound = w.orphaned id c h in omega arith;
    once = w.once;
    exact = w.exact;
    sized = w.sized;
    within = w.within;
  }

  total-Alike :
      (f : Cached ip K W → ℕ) (part : Bool) (p : Part) (parts : Bool → Part)
      → Alike (parts part) p
      → total ip dec lru_cache f (update part p parts) ≡ total ip dec lru_cache f parts
  total-Alike f part p parts a =
      omega (arith, total-update ip dec lru_cache f part p parts, a.reordered.tallied f)

  -- A shard stays consistent where one partition is replaced by one alike, and time goes on.
  pub Alike-IsShard :
      (part : Bool) (p : Part) (clock : ℕ) (st : State)
      → st.clock ≤ clock
      → Alike (st.partitions part) p
      → IsShard ip dec lru_cache st
      → IsShard ip dec lru_cache
          (record st { clock = clock; partitions = update part p st.partitions })
  Alike-IsShard part p clock st le a w = record {
    parts =
        update_rule (λ b r. IsPartition ip dec lru_cache clock b r) part p st.partitions
          (Alike-IsPartition st.clock clock part (st.partitions part) p le a (w.parts part))
          (λ b. later-IsPartition st.clock clock b (st.partitions b) le (w.parts b));
    present = λ k e m.
        let (c, at_, key, fixed) = w.present k e m in
        (
          c,
          update_rule (λ b r. peek e.id (st.partitions b).lru ≡ some c → peek e.id r.lru ≡ some c)
              part p st.partitions (λ z. a.reordered.same e.id ∙ z) (λ b z. z) e.negative at_,
          key,
          fixed,
        );
    learned_exact =
        w.learned_exact
        ∙ sym (total-Alike (λ c. learned_flag ip dec lru_cache c) part p st.partitions a);
    failures_exact =
        w.failures_exact
        ∙ sym (total-Alike (λ c. failure_flag ip dec lru_cache c) part p st.partitions a);
  }

  pub Alike-Reduced :
      (part : Bool) (p : Part) (st : State)
      → Alike (st.partitions part) p
      → Reduced ip dec lru_cache st (record st { partitions = update part p st.partitions })
  Alike-Reduced part p st a = (
    refl,
    record {
      same_entries =
          update_rule (λ b r. r.max_entries ≡ (st.partitions b).max_entries) part p st.partitions
            a.same_entries (λ b. refl);
      same_bytes =
          update_rule (λ b r. r.max_bytes ≡ (st.partitions b).max_bytes) part p st.partitions
            a.same_bytes (λ b. refl);
      no_more_bytes =
          update_rule (λ b r. r.charged ≤ (st.partitions b).charged) part p st.partitions
            (omega (arith, a.same_charged)) (λ b. omega arith);
      no_more_entries =
          update_rule (λ b r. len r.lru ≤ len (st.partitions b).lru) part p st.partitions
            (omega (arith, a.reordered.as_long)) (λ b. omega arith);
      gone = λ b id h.
          update_rule (λ b' r. peek id (st.partitions b').lru ≡ none → peek id r.lru ≡ none) part p
            st.partitions (λ z. a.reordered.same id ∙ z) (λ _ z. z) b h;
      fewer = λ k e m. m;
    },
  )
