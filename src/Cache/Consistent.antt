-- ===== src/Cache/Consistent.antt =====
-- cache.rs, `Shard`: what keeps its buckets, its two partitions and its counters together, and the
-- removal of one entry.
use pari_ns.Prelude.{
  if_neg, ℕ, ◌+◌, ◌≤◌, ◌≡◌, refl, sym, ◌∙◌, ap, Bool, true, false, none, some, some_eq, List, arith,
  ℕ_discrete,
}
use pari_ns.Prelude.Assoc.{lookup, remove, lookup-remove, length-remove-le}
use pari_ns.Prelude.Tally.{tally, tally-remove}
use pari_ns.Net.{IpNet}
use pari_ns.Cache.Select.{Entry, Member, is_failure}
use pari_ns.Cache.Lru.{LruCache}
use pari_ns.Cache.Shard.{Cached, Partition, Shard, flag, update, is_learned, or_empty}
use pari_ns.Cache.Partition.{IsPartition}

pub update_rule {ν} :
    {A : Type 0} (P : Bool → A → Type ν) (part : Bool) (x : A) (f : Bool → A)
    → P part x
    → ((b : Bool) → P b (f b))
    → (b : Bool) → P b (update part x f b)
update_rule P true x f h k true = h
update_rule P true x f h k false = k false
update_rule P false x f h k true = k true
update_rule P false x f h k false = h

pub update_self : {A : Type 0} (part : Bool) (x : A) (f : Bool → A) → update part x f part ≡ x
update_self true x f = refl
update_self false x f = refl

module _ (ip : IpNet) {K W : Type 0} (dec : Discrete K) (lru_cache : LruCache (Cached ip K W)) where
  open lru_cache use {Table, iter, len, peek, pop, single, len_iter, peek_iter, iter_pop}

  abbrev State : Type 0
  State = Shard ip dec lru_cache

  abbrev Part : Type 0
  Part = Partition ip dec lru_cache

  abbrev pub learned_flag : Cached ip K W → ℕ
  learned_flag c = flag (is_learned ip dec lru_cache c.fixed.scope)

  abbrev pub failure_flag : Cached ip K W → ℕ
  failure_flag c = flag (is_failure ip c.fixed.failure)

  -- The sum of a measure over the entries of both partitions.
  abbrev pub total : (Cached ip K W → ℕ) → (Bool → Part) → ℕ
  total f parts =
      tally ℕ_discrete f (iter (parts false).lru) + tally ℕ_discrete f (iter (parts true).lru)

  -- An entry of a bucket is in the partition of its kind, under its id and the bucket's key.
  abbrev pub Filed : (Bool → Part) → K → Entry ip → Type 0
  Filed parts k e =
      (c : Cached ip K W) × (peek e.id (parts e.negative).lru ≡ some c)
      × (c.key ≡ k)
      × (c.fixed ≡ e)

  abbrev Buckets : Type 0
  Buckets = List (K × List (Entry ip))

  abbrev of_key : K → Buckets → List (Entry ip)
  of_key k buckets = or_empty ip dec lru_cache (lookup dec k buckets)

  pub record Consistent (clock : ℕ) (partitions : Bool → Part) (buckets : Buckets)
      (learned_entries failures : ℕ) : Type 0 where
    pub parts : (b : Bool) → IsPartition ip dec lru_cache clock b (partitions b)
    pub present : (k : K) (e : Entry ip) → Member ip e (of_key k buckets) → Filed partitions k e
    pub learned_exact : learned_entries ≡ total learned_flag partitions
    pub failures_exact : failures ≡ total failure_flag partitions

  -- Each partition is one, an entry of a bucket is in its partition, and the counters of learned
  -- entries and failures count what the partitions hold.
  abbrev pub IsShard : State → Type 0
  IsShard st = Consistent st.clock st.partitions st.buckets st.learned_entries st.failures

  pub record Fewer (parts parts' : Bool → Part) (buckets buckets' : Buckets) : Type 0 where
    pub same_entries : (b : Bool) → (parts' b).max_entries ≡ (parts b).max_entries
    pub same_bytes : (b : Bool) → (parts' b).max_bytes ≡ (parts b).max_bytes
    pub no_more_bytes : (b : Bool) → (parts' b).charged ≤ (parts b).charged
    pub no_more_entries : (b : Bool) → len (parts' b).lru ≤ len (parts b).lru
    pub gone : (b : Bool) (id : ℕ) → peek id (parts b).lru ≡ none → peek id (parts' b).lru ≡ none
    pub fewer :
        (k : K) (e : Entry ip) → Member ip e (of_key k buckets') → Member ip e (of_key k buckets)

  -- What removals do to a shard: entries go, and nothing else that bounds the partitions changes.
  abbrev pub Reduced : State → State → Type 0
  Reduced st st' =
      (st'.clock ≡ st.clock) × Fewer st.partitions st'.partitions st.buckets st'.buckets

  pub Reduced-refl : (st : State) → Reduced st st
  Reduced-refl st = (
    refl,
    record {
      same_entries = λ b. refl;
      same_bytes = λ b. refl;
      no_more_bytes = λ b. omega arith;
      no_more_entries = λ b. omega arith;
      gone = λ b id h. h;
      fewer = λ k e m. m;
    },
  )

  pub Reduced-trans : (a b c : State) → Reduced a b → Reduced b c → Reduced a c
  Reduced-trans x y z (same, h) (same', k) = (
    same' ∙ same,
    record {
      same_entries = λ b. k.same_entries b ∙ h.same_entries b;
      same_bytes = λ b. k.same_bytes b ∙ h.same_bytes b;
      no_more_bytes = λ b. omega (arith, k.no_more_bytes b, h.no_more_bytes b);
      no_more_entries = λ b. omega (arith, k.no_more_entries b, h.no_more_entries b);
      gone = λ b id q. k.gone b id (h.gone b id q);
      fewer = λ key e m. h.fewer key e (k.fewer key e m);
    },
  )

  pub total-update :
      (f : Cached ip K W → ℕ) (part : Bool) (p : Part) (parts : Bool → Part)
      → total f (update part p parts) + tally ℕ_discrete f (iter (parts part).lru)
        ≡ total f parts + tally ℕ_discrete f (iter p.lru)
  total-update f true p parts = omega arith
  total-update f false p parts = omega arith

  -- A measure of all entries loses what the entry contributes.
  pub total-pop :
      (f : Cached ip K W → ℕ) (part : Bool) (p : Part) (parts : Bool → Part) (id : ℕ)
      (c : Cached ip K W)
      → peek id (parts part).lru ≡ some c
      → p.lru ≡ pop id (parts part).lru
      → total f parts ≡ f c + total f (update part p parts)
  total-pop f part p parts id c h e =
      let t = (parts part).lru in
      let less = tally-remove ℕ_discrete f id c (iter t) (sym (peek_iter id t) ∙ h) (single t id) in
      let now : iter p.lru ≡ remove ℕ_discrete id (iter t) = rw (e, iter_pop id t) refl in
      omega (arith, total-update f part p parts, less, ap (λ m. tally ℕ_discrete f m) now)

  pub peek-pop_other : (id j : ℕ) (t : Table) → ¬ (id ≡ j) → peek j (pop id t) ≡ peek j t
  peek-pop_other id j t n =
      rw
        (
          peek_iter j (pop id t),
          iter_pop id t,
          lookup-remove ℕ_discrete id j (iter t),
          peek_iter j t,
        )
        (if_neg (ℕ_discrete id j) n _ _)

  pub peek-pop_self : (id : ℕ) (t : Table) → peek id (pop id t) ≡ none
  peek-pop_self id t =
      rw (peek_iter id (pop id t), iter_pop id t)
        (ground (arith, lookup-remove ℕ_discrete id id (iter t)))

  pub peek-pop_none : (id j : ℕ) (t : Table) → peek j t ≡ none → peek j (pop id t) ≡ none
  peek-pop_none id j t h = elim (ℕ_discrete id j) [
    | yes q ↦ rw (← q) (peek-pop_self id t)
    | no n ↦ peek-pop_other id j t n ∙ h
  ]

  pub len-pop-le : (id : ℕ) (t : Table) → len (pop id t) ≤ len t
  len-pop-le id t =
      rw (len_iter (pop id t), iter_pop id t, len_iter t) (length-remove-le ℕ_discrete id (iter t))

  pub still-Filed :
      (part : Bool) (p : Part) (parts : Bool → Part) (id : ℕ) (c : Cached ip K W) (k : K)
      (e : Entry ip)
      → peek id (parts part).lru ≡ some c
      → p.lru ≡ pop id (parts part).lru
      → (c.key ≡ k → ¬ (e.id ≡ id))
      → Filed parts k e
      → Filed (update part p parts) k e
  still-Filed part p parts id c k e h q n (d, at_, key, fixed) = (
    d,
    update_rule (λ b r. peek e.id (parts b).lru ≡ some d → peek e.id r.lru ≡ some d) part p parts
        here (λ b z. z) e.negative at_,
    key,
    fixed,
  )
    where
      here : peek e.id (parts part).lru ≡ some d → peek e.id p.lru ≡ some d
      here z = elim (ℕ_discrete id e.id) [
        | no m ↦ rw q (peek-pop_other id e.id (parts part).lru m ∙ z)
        | yes m ↦
            let same : c ≡ d = some_eq (sym h ∙ ap (λ i. peek i (parts part).lru) m ∙ z) in
            absurd (n (ap (λ x. x.key) same ∙ key) (sym m))
      ]
