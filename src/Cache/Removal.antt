-- ===== src/Cache/Removal.antt =====
-- cache.rs, `Cache::remove` and `Cache::evict`: no counter passes below zero, and the shard stays
-- consistent.
use pari_ns.Prelude.{
  All, if◌then◌else◌, ℕ, ◌+◌, ◌-◌, ◌≤◌, ◌<◌, ◌≡◌, refl, sym, ◌∙◌, inl, inr, Bool, true, false, none,
  some, List, [], ◌∷◌, arith, ◌==◌, ℕ_discrete, Option-cases,
}
use pari_ns.Prelude.Assoc.{remove, lookup-remove, length-remove_present}
use pari_ns.Prelude.Snoc.{remove_absent}
use pari_ns.Net.{IpNet}
use pari_ns.Cache.Decision.{EvictionReason, record_eviction}
use pari_ns.Cache.Lru.{LruCache}
use pari_ns.Cache.Shard.{
  Cached, Partition, Shard, checked_sub, flag, update, leave_bucket, remove_entry, remove_id,
  remove_all, eviction_state,
}
use pari_ns.Cache.Partition.{IsPartition, take_out_lem}
use pari_ns.Cache.Consistent.{
  IsShard, Reduced, Reduced-refl, Reduced-trans, learned_flag, failure_flag, update_rule,
  update_self, total-pop, peek-pop_none, len-pop-le, still-Filed,
}
use pari_ns.Cache.Bucket.{leave_bucket_lem}

checked_sub_le : (a b : ℕ) → b ≤ a → checked_sub a b ≡ some (a - b)
unfolding checked_sub
checked_sub_le a b h = ground arith

module _ (ip : IpNet) {K W : Type 0} (dec : Discrete K) (lru_cache : LruCache (Cached ip K W)) where
  open lru_cache use {
    Table, iter, len, peek, pop, peek_lru, len_iter, peek_iter, iter_pop, peek_lru_iter,
  }

  abbrev State : Type 0
  State = Shard ip dec lru_cache

  abbrev Part : Type 0
  Part = Partition ip dec lru_cache

  abbrev Consistent : State → Type 0
  Consistent st = IsShard ip dec lru_cache st

  abbrev Less : State → State → Type 0
  Less st st' = Reduced ip dec lru_cache st st'

  abbrev removed : Bool → ℕ → Cached ip K W → Part → State → State
  removed part id c p st = record st {
    partitions = update part p st.partitions;
    buckets = leave_bucket ip dec lru_cache c.key id st.buckets;
    learned_entries = st.learned_entries - learned_flag ip dec lru_cache c;
    failures = st.failures - failure_flag ip dec lru_cache c;
    refreshed = λ i. if i == id then false else st.refreshed i;
    refresh_unused = st.refresh_unused + flag (st.refreshed id);
  }

  removed-IsShard :
      (part : Bool) (id : ℕ) (c : Cached ip K W) (p : Part) (st : State)
      → peek id (st.partitions part).lru ≡ some c
      → p.lru ≡ pop id (st.partitions part).lru
      → IsPartition ip dec lru_cache st.clock part p
      → Consistent st
      → Consistent (removed part id c p st)
  removed-IsShard part id c p st h q good w = record {
    parts =
        update_rule (λ b r. IsPartition ip dec lru_cache st.clock b r) part p st.partitions good
          w.parts;
    present = λ k e m.
        let (n, other) = leave_bucket_lem ip dec lru_cache c.key k id e st.buckets m in
        still-Filed ip dec lru_cache part p st.partitions id c k e h q other (w.present k e n);
    learned_exact = omega (
      arith,
      w.learned_exact,
      total-pop ip dec lru_cache (λ d. learned_flag ip dec lru_cache d) part p st.partitions id c h
          q,
    );
    failures_exact = omega (
      arith,
      w.failures_exact,
      total-pop ip dec lru_cache (λ d. failure_flag ip dec lru_cache d) part p st.partitions id c h
          q,
    );
  }

  removed-Reduced :
      (part : Bool) (id : ℕ) (c : Cached ip K W) (p : Part) (st : State)
      → p.lru ≡ pop id (st.partitions part).lru
      → p.max_entries ≡ (st.partitions part).max_entries
      → p.max_bytes ≡ (st.partitions part).max_bytes
      → p.charged ≤ (st.partitions part).charged
      → Less st (removed part id c p st)
  removed-Reduced part id c p st q es bs n = (
    refl,
    record {
      same_entries =
          update_rule (λ b r. r.max_entries ≡ (st.partitions b).max_entries) part p st.partitions es
            (λ b. refl);
      same_bytes =
          update_rule (λ b r. r.max_bytes ≡ (st.partitions b).max_bytes) part p st.partitions bs
            (λ b. refl);
      no_more_bytes =
          update_rule (λ b r. r.charged ≤ (st.partitions b).charged) part p st.partitions n
            (λ b. omega arith);
      no_more_entries =
          update_rule (λ b r. len r.lru ≤ len (st.partitions b).lru) part p st.partitions
            (rw q (len-pop-le ip dec lru_cache id (st.partitions part).lru)) (λ b. omega arith);
      gone = λ b j h.
          update_rule (λ b' r. peek j (st.partitions b').lru ≡ none → peek j r.lru ≡ none) part p
            st.partitions
            (λ z. rw q (peek-pop_none ip dec lru_cache id j (st.partitions part).lru z)) (λ _ z. z)
            b h;
      fewer = λ k e m. (leave_bucket_lem ip dec lru_cache c.key k id e st.buckets m).0;
    },
  )

  abbrev pub Gone : Bool → ℕ → State → Type 0
  Gone part id st = peek id (st.partitions part).lru ≡ none

  -- The partition loses the entry of an id, if it has one.
  abbrev Taken : Bool → ℕ → State → State → Type 0
  Taken part id st st' =
      iter (st'.partitions part).lru ≡ remove ℕ_discrete id (iter (st.partitions part).lru)

  pub Taken-Gone : (part : Bool) (id : ℕ) (st st' : State) → Taken part id st st' → Gone part id st'
  Taken-Gone part id st st' q =
      rw (peek_iter id (st'.partitions part).lru, q)
        (ground (arith, lookup-remove ℕ_discrete id id (iter (st.partitions part).lru)))

  pub Taken-len :
      (part : Bool) (id : ℕ) (st st' : State) (c : Cached ip K W)
      → Taken part id st st'
      → peek id (st.partitions part).lru ≡ some c
      → len (st'.partitions part).lru < len (st.partitions part).lru
  Taken-len part id st st' c q h =
      let t = (st.partitions part).lru in
      rw (len_iter (st'.partitions part).lru, q, len_iter t)
        (length-remove_present ℕ_discrete id (iter t) c (sym (peek_iter id t) ∙ h))

  -- A removal is no fault, keeps the shard consistent, and takes the entry.
  pub remove_id_lem :
      (part : Bool) (id : ℕ) (st : State)
      → Consistent st
      → (st' : State) × (remove_id ip dec lru_cache part id st ≡ some st')
        × Consistent st'
        × Less st st'
        × Taken part id st st'
  unfolding remove_id remove_entry
  remove_id_lem part id st w = elim (Option-cases (peek id (st.partitions part).lru)) [
    | inl q ↦ (
      st,
      rw (q, remove_id) refl,
      w,
      Reduced-refl ip dec lru_cache st,
      sym (remove_absent ℕ_discrete id _ (sym (peek_iter id (st.partitions part).lru) ∙ q)),
    )
    | inr (c, q) ↦
        let (p, run, good, at_, es, bs, n) =
          take_out_lem ip dec lru_cache st.clock part (st.partitions part) id c q (w.parts part) in
        let learned_le =
          total-pop ip dec lru_cache (λ d. learned_flag ip dec lru_cache d) part p st.partitions id
            c q at_ in
        let failures_le =
          total-pop ip dec lru_cache (λ d. failure_flag ip dec lru_cache d) part p st.partitions id
            c q at_ in
        (
          removed part id c p st,
          rw
              (
                q,
                remove_id,
                remove_entry,
                checked_sub_le st.learned_entries (learned_flag ip dec lru_cache c)
                    (omega (arith, w.learned_exact, learned_le)),
                checked_sub_le st.failures (failure_flag ip dec lru_cache c)
                    (omega (arith, w.failures_exact, failures_le)),
                run,
              )
              refl,
          removed-IsShard part id c p st q at_ good w,
          removed-Reduced part id c p st at_ es bs n,
          rw (update_self part p st.partitions, at_) (iter_pop id (st.partitions part).lru),
        )
  ]

  -- A removal from a consistent shard never takes a counter below zero, keeps the shard consistent,
  -- and the entry is gone.
  pub remove_id_total :
      (part : Bool) (id : ℕ) (st : State)
      → Consistent st
      → (st' : State) × (remove_id ip dec lru_cache part id st ≡ some st')
        × Consistent st'
        × Gone part id st'
  remove_id_total part id st w =
      let (st', run, w', _, taken) = remove_id_lem part id st w in
      (st', run, w', Taken-Gone part id st st' taken)

  -- So are the removals of a list of entries, and none of them is left.
  pub remove_all_lem :
      (ps : List (Bool × ℕ)) (st : State)
      → Consistent st
      → (st' : State) × (remove_all ip dec lru_cache ps st ≡ some st')
        × Consistent st'
        × Less st st'
        × All (λ (q : Bool × ℕ). Gone q.0 q.1 st') ps
  unfolding remove_all
  remove_all_lem [] st w = (st, refl, w, Reduced-refl ip dec lru_cache st, tt)
  remove_all_lem ((part, id) ∷ ps) st w =
      let (one, run, w', less, taken) = remove_id_lem part id st w in
      let (all, runs, w'', less', gone) = remove_all_lem ps one w' in
      (
        all,
        rw (run, remove_all) runs,
        w'',
        Reduced-trans ip dec lru_cache st one all less less',
        ((less'.1).gone part id (Taken-Gone part id st one taken), gone),
      )

  abbrev noted : Bool → ℕ → EvictionReason → Cached ip K W → State → State
  noted part now reason c st =
      let p = st.partitions part in
      record st {
        partitions =
            update part
              (record p {
                evictions =
                    record_eviction reason (eviction_state ip dec lru_cache now c.fixed)
                      p.evictions;
              })
              st.partitions;
        counts = record st.counts { evictions = st.counts.evictions + 1 };
      }

  noted_lem :
      (part : Bool) (now : ℕ) (reason : EvictionReason) (c : Cached ip K W) (st : State) (b : Bool)
      → (((noted part now reason c st).partitions b).lru ≡ (st.partitions b).lru)
        × (((noted part now reason c st).partitions b).max_entries ≡ (st.partitions b).max_entries)
        × (((noted part now reason c st).partitions b).max_bytes ≡ (st.partitions b).max_bytes)
        × (((noted part now reason c st).partitions b).charged ≡ (st.partitions b).charged)
  noted_lem true now reason c st true = (refl, refl, refl, refl)
  noted_lem true now reason c st false = (refl, refl, refl, refl)
  noted_lem false now reason c st true = (refl, refl, refl, refl)
  noted_lem false now reason c st false = (refl, refl, refl, refl)
