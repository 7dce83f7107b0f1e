-- ===== src/Cache/Bucket.antt =====
-- cache.rs, `Shard::buckets`: what is left in a bucket when an entry leaves it.
use pari_ns.Prelude.{
  if_neg, ℕ, ◌≡◌, refl, ◌⊎◌, inl, inr, Bool, true, not, Option, List, [], ◌∷◌, arith, ◌==◌,
  Bool-cases, Option-cases,
}
use pari_ns.Prelude.Assoc.{lookup, lookup-insert, lookup-insert_self, lookup-remove}
use pari_ns.Net.{IpNet}
use pari_ns.Sharing.Samples.{retain}
use pari_ns.Cache.Select.{Entry, Member}
use pari_ns.Cache.Lru.{LruCache}
use pari_ns.Cache.Shard.{Cached, or_empty, leave_bucket}

module _ (ip : IpNet) {K W : Type 0} (dec : Discrete K) (lru_cache : LruCache (Cached ip K W)) where
  kept_or :
      (keep : Entry ip → Bool) (e x : Entry ip) (es : List (Entry ip))
      → keep x ≡ true
      → (Member ip e (retain keep es) → Member ip e es × (keep e ≡ true))
      → Member ip e (x ∷ retain keep es)
      → Member ip e (x ∷ es) × (keep e ≡ true)
  kept_or keep e x es ok rec (inl q) = (inl q, rw q ok)
  kept_or keep e x es ok rec (inr n) = let (n', q) = rec n in (inr n', q)

  pub Member-retain :
      (keep : Entry ip → Bool) (e : Entry ip) (es : List (Entry ip))
      → Member ip e (retain keep es)
      → Member ip e es × (keep e ≡ true)
  unfolding retain
  Member-retain keep e [] m = elim m [ ]
  Member-retain keep e (x ∷ es) m = elim (Bool-cases (keep x)) [
    | inr no_ ↦ let (n, q) = Member-retain keep e es (rw (no_, retain) at m) in (inr n, q)
    | inl ok ↦ kept_or keep e x es ok (λ n. Member-retain keep e es n) (rw (ok, retain) at m)
  ]

  list_cases :
      (es : List (Entry ip)) → (es ≡ []) ⊎ ((x : Entry ip) × (xs : List (Entry ip)) × (es ≡ x ∷ xs))
  list_cases [] = inl refl
  list_cases (x ∷ xs) = inr (x, xs, refl)

  unequal : (i id : ℕ) → not (i == id) ≡ true → ¬ (i ≡ id)
  unequal i id h e = ground arith

  abbrev InBucket : Entry ip → Option (List (Entry ip)) → Type 0
  InBucket e o = Member ip e (or_empty ip dec lru_cache o)

  kept_of :
      (id : ℕ) (e : Entry ip) (es : List (Entry ip))
      → Member ip e (retain (λ (x : Entry ip). not (x.id == id)) es)
      → Member ip e es × (¬ (e.id ≡ id))
  kept_of id e es m =
      let (n, q) = Member-retain (λ x. not (x.id == id)) e es m in (n, unequal e.id id q)

  leave_self :
      (key : K) (id : ℕ) (buckets : List (K × List (Entry ip)))
      → or_empty ip dec lru_cache (lookup dec key (leave_bucket ip dec lru_cache key id buckets))
        ≡ retain
            (λ (x : Entry ip). not (x.id == id))
            (or_empty ip dec lru_cache (lookup dec key buckets))
  unfolding leave_bucket retain
  leave_self key id buckets = elim (Option-cases (lookup dec key buckets)) [
    | inl none_ ↦ rw (none_, leave_bucket, none_) refl
    | inr (es, some_) ↦ elim (list_cases (retain (λ (x : Entry ip). not (x.id == id)) es)) [
      | inl q ↦
          rw (some_, leave_bucket, q, lookup-remove dec key key buckets)
            (ground (arith, lookup-remove dec key key buckets))
      | inr (x, xs, q) ↦
          rw (some_, leave_bucket, q, lookup-insert_self dec key (x ∷ xs) buckets) refl
    ]
  ]

  leave_other :
      (key k : K) (id : ℕ) (buckets : List (K × List (Entry ip)))
      → ¬ (key ≡ k)
      → lookup dec k (leave_bucket ip dec lru_cache key id buckets) ≡ lookup dec k buckets
  unfolding leave_bucket
  leave_other key k id buckets n = elim (Option-cases (lookup dec key buckets)) [
    | inl none_ ↦ rw (none_, leave_bucket) refl
    | inr (es, some_) ↦ elim (list_cases (retain (λ (x : Entry ip). not (x.id == id)) es)) [
      | inl q ↦
          rw (some_, leave_bucket, q, lookup-remove dec key k buckets) (if_neg (dec key k) n _ _)
      | inr (x, xs, q) ↦
          rw (some_, leave_bucket, q, lookup-insert dec key k (x ∷ xs) buckets)
            (if_neg (dec key k) n _ _)
    ]
  ]

  -- After an entry left its bucket, what is in a bucket was there, and is not the entry.
  pub leave_bucket_lem :
      (key k : K) (id : ℕ) (e : Entry ip) (buckets : List (K × List (Entry ip)))
      → InBucket e (lookup dec k (leave_bucket ip dec lru_cache key id buckets))
      → InBucket e (lookup dec k buckets) × (key ≡ k → ¬ (e.id ≡ id))
  leave_bucket_lem key k id e buckets m = elim (dec key k) [
    | no n ↦ (rw (leave_other key k id buckets n) at m, λ q. absurd (n q))
    | yes q ↦
        let m' : InBucket e (lookup dec key (leave_bucket ip dec lru_cache key id buckets)) =
          rw (← q) at m in
        let (n, d) = kept_of id e _ (rw (leave_self key id buckets) at m') in (rw (← q) n, λ _. d)
  ]
