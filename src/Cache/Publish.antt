-- ===== src/Cache/Publish.antt =====
-- cache.rs, the end of `Cache::place`: an entry that fits enters its bucket and its partition.
use pari_ns.Prelude.{
  ℕ, ◌+◌, ◌≤◌, ◌<◌, ◌≡◌, refl, sym, ◌∙◌, ◌⊎◌, inl, inr, ap, Bool, Option, none, some, List, [], ◌∷◌,
  ◌++◌, arith, count, choose, ℕ_discrete, Option-cases,
}
use pari_ns.Prelude.Assoc.{keys, lookup, insert, lookup-insert_rule, count-eq_zero}
use pari_ns.Net.{IpNet}
use pari_ns.Cache.Lru.{LruCache}
use pari_ns.Cache.Select.{Entry, Member}
use pari_ns.Cache.Shard.{Cached, Partition, Shard, update, or_empty}
use pari_ns.Cache.Partition.{IsPartition, charge_of}
use pari_ns.Cache.Growth.{Added, put-Added, demote-Added}
use pari_ns.Cache.Admit.{Layout, Stored, charge, entry_of, cached_of, put_entry, publish}
use pari_ns.Cache.Alike.{later-IsPartition}
use pari_ns.Cache.Consistent.{
  IsShard, Filed, total, total-update, learned_flag, failure_flag, update_rule, update_self,
}

module _ (ip : IpNet) {K W : Type 0} (dec : Discrete K) (lru_cache : LruCache (Cached ip K W))
    (layout : Layout K W) where
  open lru_cache use {Table, iter, len, peek, peek_iter}

  abbrev State : Type 0
  State = Shard ip dec lru_cache

  abbrev Part : Type 0
  Part = Partition ip dec lru_cache

  -- An id that the clock has not reached is in no partition.
  unused :
      (clock : ℕ) (part : Bool) (p : Part) (id : ℕ)
      → clock < id
      → IsPartition ip dec lru_cache clock part p
      → peek id p.lru ≡ none
  unused clock part p id h w = elim (Option-cases (peek id p.lru)) [
    | inl q ↦ q
    | inr (c, q) ↦ let (_, _, bound) = w.filed id c q in absurd (omega arith)
  ]

  unused_orphan :
      (clock : ℕ) (part : Bool) (p : Part) (id : ℕ)
      → clock < id
      → IsPartition ip dec lru_cache clock part p
      → lookup ℕ_discrete id p.orphans ≡ none
  unused_orphan clock part p id h w = elim (Option-cases (lookup ℕ_discrete id p.orphans)) [
    | inl q ↦ q
    | inr (c, q) ↦ let bound = w.orphaned id c q in absurd (omega arith)
  ]

  new_once :
      (id j a b : ℕ)
      → (id ≡ j → (a ≡ 0) × (b ≡ 0))
      → a + b ≤ 1
      → choose (ℕ_discrete id j) 1 0 + a + b ≤ 1
  new_once id j a b h w = elim (ℕ_discrete id j) as (λ d. choose d 1 0 + a + b ≤ 1) [
    | yes e ↦ omega (arith, (h e).0, (h e).1)
    | no n ↦ omega arith
  ]

  Added-IsPartition :
      (clock : ℕ) (part : Bool) (p : Part) (id : ℕ) (c : Cached ip K W) (t : Table)
      → clock < id
      → c.fixed.id ≡ id
      → c.fixed.negative ≡ part
      → Added ip dec lru_cache id c p.lru t
      → len p.lru + 1 ≤ p.max_entries
      → p.charged + c.charge ≤ p.max_bytes
      → IsPartition ip dec lru_cache clock part p
      → IsPartition ip dec lru_cache id part (record p { charged = p.charged + c.charge; lru = t })
  Added-IsPartition clock part p id c t h own kind a entries bytes w = record {
    filed = λ j d q. elim (a.only j d q) [
      | inl old ↦ let (i, n, bound) = w.filed j d old in (i, n, omega arith)
      | inr (same, value) ↦ (
        ap (λ x. x.fixed.id) (sym value) ∙ own ∙ same,
        ap (λ x. x.fixed.negative) (sym value) ∙ kind,
        omega (arith, same),
      )
    ];
    orphaned = λ j d q. let bound = w.orphaned j d q in omega arith;
    once = λ j. rw (a.counted j) (new_once id j _ _ (λ q. fresh j q) (w.once j));
    exact = omega (arith, w.exact, a.tallied (λ d. charge_of ip dec lru_cache d));
    sized = omega (arith, a.longer, entries);
    within = bytes;
  }
    where
      fresh :
          (j : ℕ)
          → id ≡ j
          → (count ℕ_discrete j (keys (iter p.lru)) ≡ 0) × (count ℕ_discrete j (keys p.orphans) ≡ 0)
      fresh j q = rw (← q) (
        count-eq_zero ℕ_discrete id (iter p.lru)
            (sym (peek_iter id p.lru) ∙ unused clock part p id h w),
        count-eq_zero ℕ_discrete id p.orphans (unused_orphan clock part p id h w),
      )

  pub Member-snoc :
      (e x : Entry ip) (es : List (Entry ip))
      → Member ip e (es ++ x ∷ [])
      → Member ip e es ⊎ (e ≡ x)
  Member-snoc e x [] (inl q) = inr q
  Member-snoc e x [] (inr m) = elim m [ ]
  Member-snoc e x (y ∷ es) (inl q) = inl (inl q)
  Member-snoc e x (y ∷ es) (inr m) = elim (Member-snoc e x es m) [
    | inl n ↦ inl (inr n)
    | inr q ↦ inr q
  ]

  pub Member-snoc_new : (x : Entry ip) (es : List (Entry ip)) → Member ip x (es ++ x ∷ [])
  Member-snoc_new x [] = inl refl
  Member-snoc_new x (y ∷ es) = inr (Member-snoc_new x es)

  put_entry-Added :
      (accessed : Option ℕ) (id : ℕ) (c : Cached ip K W) (t : Table)
      → peek id t ≡ none
      → Added ip dec lru_cache id c t (put_entry ip dec lru_cache layout accessed id c t)
  put_entry-Added none id c t h = put-Added ip dec lru_cache id c t h
  put_entry-Added (some a) id c t h = demote-Added ip dec lru_cache id c t h

  abbrev grown : Bool → ℕ → Cached ip K W → Table → (Bool → Part) → Bool → Part
  grown part n c t parts =
      update part (record (parts part) { charged = (parts part).charged + c.charge; lru = t }) parts

  total-grown :
      (f : Cached ip K W → ℕ) (part : Bool) (id : ℕ) (c : Cached ip K W) (t : Table)
      (parts : Bool → Part)
      → Added ip dec lru_cache id c (parts part).lru t
      → total ip dec lru_cache f (grown part id c t parts) ≡ total ip dec lru_cache f parts + f c
  total-grown f part id c t parts a = omega (
    arith,
    total-update ip dec lru_cache f part
        (record (parts part) { charged = (parts part).charged + c.charge; lru = t }) parts,
    a.tallied f,
  )

  Filed-grown :
      (part : Bool) (id : ℕ) (c : Cached ip K W) (t : Table) (parts : Bool → Part) (k : K)
      (e : Entry ip)
      → Added ip dec lru_cache id c (parts part).lru t
      → Filed ip dec lru_cache parts k e
      → Filed ip dec lru_cache (grown part id c t parts) k e
  Filed-grown part id c t parts k e a (d, at_, key, fixed) = (
    d,
    update_rule (λ b r. peek e.id (parts b).lru ≡ some d → peek e.id r.lru ≡ some d) part _ parts
        (λ z. a.old e.id d z) (λ b z. z) e.negative at_,
    key,
    fixed,
  )

  Filed-new :
      (part : Bool) (id : ℕ) (c : Cached ip K W) (t : Table) (parts : Bool → Part) (k : K)
      (e : Entry ip)
      → Added ip dec lru_cache id c (parts part).lru t
      → c.fixed.id ≡ id
      → c.fixed.negative ≡ part
      → c.key ≡ k
      → e ≡ c.fixed
      → Filed ip dec lru_cache (grown part id c t parts) k e
  Filed-new part id c t parts k e a own kind key value =
      let new = record (parts part) { charged = (parts part).charged + c.charge; lru = t } in
      let g = grown part id c t parts in
      (
        c,
        ap (λ x. peek x.id (g x.negative).lru) value
            ∙ ap (λ i. peek i (g c.fixed.negative).lru) own
            ∙ ap (λ b. peek id (g b).lru) kind
            ∙ ap (λ r. peek id r.lru) (update_self part new parts)
            ∙ a.new,
        key,
        sym value,
      )

  -- The buckets after an entry is published hold what they held, and the entry.
  pub Member-published :
      (key k : K) (e x : Entry ip) (buckets : List (K × List (Entry ip)))
      → Member ip e (
          or_empty ip dec lru_cache (
            lookup dec k (
              insert dec key
                (or_empty ip dec lru_cache (lookup dec key buckets) ++ x ∷ [])
                buckets)))
      → Member ip e (or_empty ip dec lru_cache (lookup dec k buckets)) ⊎ ((key ≡ k) × (e ≡ x))
  Member-published key k e x buckets =
      lookup-insert_rule dec
        (λ o.
          Member ip e (or_empty ip dec lru_cache o)
          → Member ip e (or_empty ip dec lru_cache (lookup dec k buckets)) ⊎ ((key ≡ k) × (e ≡ x)))
        key k _ buckets
        (λ q m. elim (Member-snoc e x _ m) [ inl n ↦ inl (rw (← q) n) | inr r ↦ inr (q, r) ])
        (λ n m. inl m)

  -- The shard stays consistent when an entry is published into a partition with room for it.
  pub publish-IsShard :
      (key : K) (stored : Stored ip W) (now : ℕ) (st : State)
      → len (st.partitions stored.negative).lru + 1 ≤ (st.partitions stored.negative).max_entries
      → (st.partitions stored.negative).charged + charge ip dec lru_cache layout stored.wire key
        ≤ (st.partitions stored.negative).max_bytes
      → IsShard ip dec lru_cache st
      → IsShard ip dec lru_cache (publish ip dec lru_cache layout key stored now st)
  unfolding publish cached_of entry_of
  publish-IsShard key stored now st entries bytes w =
      let part = stored.negative in
      let id = st.clock + 1 in
      let c = cached_of ip dec lru_cache layout key id stored now in
      let a =
        put_entry-Added stored.accessed id c (st.partitions part).lru
          (unused st.clock part (st.partitions part) id (omega arith) (w.parts part)) in
      record {
        parts =
            update_rule (λ b r. IsPartition ip dec lru_cache id b r) part _ st.partitions
              (Added-IsPartition st.clock part (st.partitions part) id c _ (omega arith) refl refl a
                entries bytes (w.parts part))
              (λ b.
                later-IsPartition ip dec lru_cache st.clock id b (st.partitions b) (omega arith)
                  (w.parts b));
        present = λ k e m.
            elim (Member-published key k e (entry_of ip dec lru_cache layout id stored now)
              st.buckets m) [
                | inl old ↦ Filed-grown part id c _ st.partitions k e a (w.present k e old)
                | inr (same, value) ↦ Filed-new part id c _ st.partitions k e a refl refl same value
              ];
        learned_exact = omega (
          arith,
          w.learned_exact,
          total-grown (λ d. learned_flag ip dec lru_cache d) part id c _ st.partitions a,
        );
        failures_exact = omega (
          arith,
          w.failures_exact,
          total-grown (λ d. failure_flag ip dec lru_cache d) part id c _ st.partitions a,
        );
      }

  -- The published entry is in its partition under the next id.
  pub peek-publish :
      (key : K) (stored : Stored ip W) (now : ℕ) (st : State)
      → IsShard ip dec lru_cache st
      → peek
          (st.clock + 1)
          ((publish ip dec lru_cache layout key stored now st).partitions stored.negative).lru
        ≡ some (cached_of ip dec lru_cache layout key (st.clock + 1) stored now)
  unfolding publish
  peek-publish key stored now st w =
      let part = stored.negative in
      let id = st.clock + 1 in
      let c = cached_of ip dec lru_cache layout key id stored now in
      let t = (st.partitions part).lru in
      let p = record (st.partitions part) {
        charged = (st.partitions part).charged + charge ip dec lru_cache layout stored.wire key;
        lru = put_entry ip dec lru_cache layout stored.accessed id c t;
      } in
      ap (λ r. peek id r.lru) (update_self part p st.partitions)
      ∙ (put_entry-Added stored.accessed id c t
          (unused st.clock part (st.partitions part) id (omega arith) (w.parts part))).new
