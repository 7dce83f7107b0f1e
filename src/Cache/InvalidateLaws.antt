-- ===== src/Cache/InvalidateLaws.antt =====
-- cache.rs, `Cache::invalidate`: what it names is gone.
use pari_ns.Prelude.{
  some_eq, subst, ap, ℕ, ◌≡◌, refl, sym, ◌∙◌, inl, inr, Bool, true, false, ◌&&◌, All, length,
  Option, none, some, List, [], ◌∷◌, ◌++◌, arith, Bool-cases, ℕ_discrete,
}
use pari_ns.Prelude.Assoc.{lookup}
use pari_ns.Net.{IpNet}
use pari_ns.Ecs.Scope.{Scope}
use pari_ns.Cache.Lru.{LruCache}
use pari_ns.Cache.Select.{Entry, Member}
use pari_ns.Cache.Shard.{Cached, Shard, bucket}
use pari_ns.Cache.Admit.{Layout}
use pari_ns.Cache.Store.{Sharing, Locked}
use pari_ns.Cache.Invalidate.{by_scope, named, invalidate_shard}
use pari_ns.Cache.Consistent.{IsShard}
use pari_ns.Cache.Removal.{Gone, remove_all_lem}

All-left {κ} : {A : Type 0} (P : A → Type κ) (xs ys : List A) → All P (xs ++ ys) → All P xs
All-left P [] ys h = tt
All-left P (x ∷ xs) ys h = (h.0, All-left P xs ys h.1)

All-right {κ} : {A : Type 0} (P : A → Type κ) (xs ys : List A) → All P (xs ++ ys) → All P ys
All-right P [] ys h = h
All-right P (x ∷ xs) ys h = All-right P xs ys h.1

module _ (ip : IpNet) {K W : Type 0} (dec : Discrete K) (lru_cache : LruCache (Cached ip K W))
    {F : Type 0} (layout : Layout K W) (sharing : Sharing ip K F) where
  open lru_cache use {iter, peek, peek_iter}

  abbrev LockedShard : Type 0
  LockedShard = Locked ip dec lru_cache layout sharing

  abbrev State : Type 0
  State = Shard ip dec lru_cache

  module _ (by_key : K → Bool) (sc : Option (Scope ip)) where
    abbrev names : Bool → List (ℕ × Cached ip K W) → List (Bool × ℕ)
    names part m = named ip dec lru_cache layout sharing by_key sc part m

    abbrev GoneIn : State → Bool × ℕ → Type 0
    GoneIn st q = Gone ip dec lru_cache q.0 q.1 st

    abbrev test : Cached ip K W → Bool
    test d = by_key d.key && by_scope ip dec lru_cache layout sharing sc d.fixed.scope

    head_lem :
        (j id : ℕ) (d : Cached ip K W) (m : List (ℕ × Cached ip K W))
        → j ≡ id
        → lookup ℕ_discrete id ((j, d) ∷ m) ≡ some d
    unfolding lookup
    head_lem j id d m e = ground arith

    tail_lem :
        (j id : ℕ) (d : Cached ip K W) (m : List (ℕ × Cached ip K W))
        → ¬ (j ≡ id)
        → lookup ℕ_discrete id ((j, d) ∷ m) ≡ lookup ℕ_discrete id m
    unfolding lookup
    tail_lem j id d m n = ground arith

    named-Gone :
        (st : State) (part : Bool) (id : ℕ) (c : Cached ip K W) (m : List (ℕ × Cached ip K W))
        → All (λ q. GoneIn st q) (names part m)
        → lookup ℕ_discrete id m ≡ some c
        → (by_key c.key && by_scope ip dec lru_cache layout sharing sc c.fixed.scope) ≡ true
        → GoneIn st (part, id)
    unfolding named lookup
    named-Gone st part id c [] h k t = absurd (clash k)
      where
        clash : {A : Type 0} {a : A} → none ≡ some a → ⊥
        clash h = cc
    named-Gone st part id c ((j, d) ∷ m) h k t = elim (ℕ_discrete j id) [
      | yes e ↦
          let k' : ◌≡◌ {A = Option (Cached ip K W)} (some d) (some c) =
            sym (head_lem j id d m e) ∙ k in
          let t' : test d ≡ true = ap (λ x. test x) (some_eq k') ∙ t in
          subst (λ i. GoneIn st (part, i)) e ((rw (t', named) at h).0)
      | no n ↦ elim (Bool-cases (test d)) [
        | inl yes_ ↦
            named-Gone st part id c m ((rw (yes_, named) at h).1) (sym (tail_lem j id d m n) ∙ k) t
        | inr no_ ↦
            named-Gone st part id c m (rw (no_, named) at h) (sym (tail_lem j id d m n) ∙ k) t
      ]
    ]

    gone_of :
        (st st' : State) (ps ns : List (Bool × ℕ))
        → All (λ q. GoneIn st' q) (ps ++ ns)
        → ps ≡ names false (iter (st.partitions false).lru)
        → ns ≡ names true (iter (st.partitions true).lru)
        → (part : Bool) (id : ℕ) (c : Cached ip K W) → peek id (st.partitions part).lru ≡ some c
        → test c ≡ true
        → GoneIn st' (part, id)
    gone_of st st' ps ns gone hp hn true id c at_ t =
        named-Gone st' true id c (iter (st.partitions true).lru)
          (subst (λ x. All (λ q. GoneIn st' q) x) hn (All-right (λ q. GoneIn st' q) ps ns gone))
          (sym (peek_iter id (st.partitions true).lru) ∙ at_) t
    gone_of st st' ps ns gone hp hn false id c at_ t =
        named-Gone st' false id c (iter (st.partitions false).lru)
          (subst (λ x. All (λ q. GoneIn st' q) x) hp (All-left (λ q. GoneIn st' q) ps ns gone))
          (sym (peek_iter id (st.partitions false).lru) ∙ at_) t

    invalidate_lem :
        (l : LockedShard)
        → IsShard ip dec lru_cache l.shard
        → (n : ℕ) × (l' : LockedShard) × (invalidate_shard ip dec lru_cache layout sharing by_key sc
              l
            ≡ some (n, l'))
          × IsShard ip dec lru_cache l'.shard
          × ((k : K) (e : Entry ip)
              → Member ip e (bucket ip dec lru_cache k l'.shard)
              → (by_key k && by_scope ip dec lru_cache layout sharing sc e.scope) ≡ false)
    unfolding invalidate_shard
    invalidate_lem l w =
        let ps = names false (iter (l.shard.partitions false).lru) in
        let ns = names true (iter (l.shard.partitions true).lru) in
        let (st', run, w', less, gone) = remove_all_lem ip dec lru_cache (ps ++ ns) l.shard w in
        let l' : LockedShard = record { shard = st'; table = sharing.forget by_key sc l.table } in
        (
          length (ps ++ ns),
          l',
          rw (run, invalidate_shard) refl,
          w',
          λ k e m.
              elim (Bool-cases (by_key k && by_scope ip dec lru_cache layout sharing sc e.scope)) [
                | inr no_ ↦ no_
                | inl yes_ ↦
                    let (c, at_, key, fixed) = w.present k e ((less.1).fewer k e m) in
                    let (c', at', _, _) = w'.present k e m in
                    let t : test c ≡ true = rw (key, fixed) yes_ in
                    let out = gone_of l.shard st' ps ns gone refl refl e.negative e.id c at_ t in
                    absurd (clash' (sym at' ∙ out))
              ],
        )
      where
        clash' : {A : Type 0} {a : A} → some a ≡ none → ⊥
        clash' h = cc

    same_end :
        {n n' : ℕ} {l l' : LockedShard}
        → ◌≡◌ {A = Option (ℕ × LockedShard)} (some (n, l)) (some (n', l'))
        → l ≡ l'
    same_end h = cc

    -- An invalidation of a consistent shard is no fault, whatever it names, and keeps the shard
    -- consistent.
    invalidate_total :
        (l : LockedShard)
        → IsShard ip dec lru_cache l.shard
        → (n : ℕ) × (l' : LockedShard) × (invalidate_shard ip dec lru_cache layout sharing by_key sc
              l
            ≡ some (n, l'))
          × IsShard ip dec lru_cache l'.shard
    invalidate_total l w = let (n, l', run, w', _) = invalidate_lem l w in (n, l', run, w')

    -- After an invalidation of a consistent shard no entry whose key and scope it names is left in
    -- a bucket.
    pub invalidate-bucket :
        (l l' : LockedShard) (n : ℕ) (k : K) (e : Entry ip)
        → IsShard ip dec lru_cache l.shard
        → invalidate_shard ip dec lru_cache layout sharing by_key sc l ≡ some (n, l')
        → Member ip e (bucket ip dec lru_cache k l'.shard)
        → (by_key k && by_scope ip dec lru_cache layout sharing sc e.scope) ≡ false
    invalidate-bucket l l' n k e w run m =
        let (n', l2, run', _, clear) = invalidate_lem l w in
        clear k e (
          subst (λ x. Member ip e (bucket ip dec lru_cache k x.shard)) (same_end (sym run ∙ run'))
            m)
