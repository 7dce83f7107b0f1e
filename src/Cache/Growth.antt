-- ===== src/Cache/Growth.antt =====
-- cache.rs, `Partition`: entries that are added, used, held and dropped.
use pari_ns.Prelude.{
  ℕ, ◌+◌, ◌≡◌, refl, ap, sym, ◌∙◌, ◌⊎◌, none, some, List, [], ◌∷◌, ◌++◌, arith, length,
  length-append, count, choose, ℕ_discrete,
}
use pari_ns.Prelude.Assoc.{keys, lookup, remove, lookup-remove, count-remove, count-pos}
use pari_ns.Prelude.Tally.{tally, tally-remove, tally-append}
use pari_ns.Prelude.Snoc.{
  remove_absent, lookup-snoc_old, lookup-snoc_new, lookup-snoc_cases, count-snoc, lookup-cons_old,
  lookup-cons_new, lookup-cons_cases, remove-cons,
}
use pari_ns.Net.{IpNet}
use pari_ns.Cache.Lru.{LruCache}
use pari_ns.Cache.Shard.{Cached}

module _ (ip : IpNet) {K W : Type 0} (dec : Discrete K) (lru_cache : LruCache (Cached ip K W)) where
  open lru_cache use {
    Table, iter, len, peek, pop, put, demote, promote, single, len_iter, peek_iter, iter_pop,
    iter_put, iter_promote, iter_demote,
  }

  -- A table with one entry more.
  pub record Added (id : ℕ) (c : Cached ip K W) (t t' : Table) : Type 0 where
    pub new : peek id t' ≡ some c
    pub old : (j : ℕ) (d : Cached ip K W) → peek j t ≡ some d → peek j t' ≡ some d
    pub only :
        (j : ℕ) (d : Cached ip K W)
        → peek j t' ≡ some d
        → (peek j t ≡ some d) ⊎ ((id ≡ j) × (c ≡ d))
    pub counted :
        (j : ℕ)
        → count ℕ_discrete j (keys (iter t'))
          ≡ choose (ℕ_discrete id j) 1 0 + count ℕ_discrete j (keys (iter t))
    pub tallied :
        (f : Cached ip K W → ℕ) → tally ℕ_discrete f (iter t') ≡ f c + tally ℕ_discrete f (iter t)
    pub longer : len t' ≡ len t + 1

  absent : (id : ℕ) (t : Table) → peek id t ≡ none → lookup ℕ_discrete id (iter t) ≡ none
  absent id t h = sym (peek_iter id t) ∙ h

  put-iter :
      (id : ℕ) (c : Cached ip K W) (t : Table)
      → peek id t ≡ none
      → iter (put id c t) ≡ (id, c) ∷ iter t
  put-iter id c t h =
      iter_put id c t ∙ ap (λ m. (id, c) ∷ m) (remove_absent ℕ_discrete id (iter t) (absent id t h))

  pub put-Added :
      (id : ℕ) (c : Cached ip K W) (t : Table) → peek id t ≡ none → Added id c t (put id c t)
  unfolding count tally
  put-Added id c t h = record {
    new =
        rw (peek_iter id (put id c t), put-iter id c t h)
          (lookup-cons_new ℕ_discrete id c (iter t));
    old = λ j d e.
        rw (peek_iter j (put id c t), put-iter id c t h)
          (lookup-cons_old ℕ_discrete j id c d (iter t) (absent id t h) (sym (peek_iter j t) ∙ e));
    only = λ j d e. rw (peek_iter j t) (
        lookup-cons_cases ℕ_discrete j id c d (iter t)
          (rw (peek_iter j (put id c t), put-iter id c t h) at e));
    counted = λ j. rw (put-iter id c t h) refl;
    tallied = λ f. rw (put-iter id c t h) refl;
    longer = rw (len_iter (put id c t), put-iter id c t h, len_iter t) (omega arith);
  }

  demote-iter :
      (id : ℕ) (c : Cached ip K W) (t : Table)
      → peek id t ≡ none
      → iter (demote id (put id c t)) ≡ iter t ++ (id, c) ∷ []
  demote-iter id c t h =
      iter_demote id c (put id c t) ((put-Added id c t h).new)
      ∙ ap (λ m. m ++ (id, c) ∷ [])
          (ap (λ m. remove ℕ_discrete id m) (put-iter id c t h)
            ∙ remove-cons ℕ_discrete id c (iter t) (absent id t h))

  pub demote-Added :
      (id : ℕ) (c : Cached ip K W) (t : Table)
      → peek id t ≡ none
      → Added id c t (demote id (put id c t))
  unfolding tally
  demote-Added id c t h =
      let e = demote-iter id c t h in
      let t' = demote id (put id c t) in
      record {
        new = rw (peek_iter id t', e) (lookup-snoc_new ℕ_discrete id c (iter t) (absent id t h));
        old = λ j d q.
            rw (peek_iter j t', e)
              (lookup-snoc_old ℕ_discrete j id c d (iter t) (sym (peek_iter j t) ∙ q));
        only = λ j d q.
            rw (peek_iter j t)
              (lookup-snoc_cases ℕ_discrete j id c d (iter t) (rw (peek_iter j t', e) at q));
        counted = λ j. rw e (count-snoc ℕ_discrete j id c (iter t));
        tallied = λ f. rw e (omega (arith, tally-append ℕ_discrete f (iter t) ((id, c) ∷ [])));
        longer =
            rw (len_iter t', e, len_iter t) (omega (arith, length-append (iter t) ((id, c) ∷ [])));
      }

  peek-promote :
      (id j : ℕ) (c : Cached ip K W) (t : Table)
      → peek id t ≡ some c
      → peek j (promote id t) ≡ peek j t
  unfolding lookup
  peek-promote id j c t h =
      rw (peek_iter j (promote id t), iter_promote id c t h, peek_iter j t)
        (ground (arith, lookup-remove ℕ_discrete id j (iter t), peek_iter id t))

  -- The order of use changes nothing else.
  pub record Reordered (t t' : Table) : Type 0 where
    pub same : (j : ℕ) → peek j t' ≡ peek j t
    pub counted : (j : ℕ) → count ℕ_discrete j (keys (iter t')) ≡ count ℕ_discrete j (keys (iter t))
    pub tallied :
        (f : Cached ip K W → ℕ) → tally ℕ_discrete f (iter t') ≡ tally ℕ_discrete f (iter t)
    pub as_long : len t' ≡ len t

  length-tally : (m : List (ℕ × Cached ip K W)) → tally ℕ_discrete (λ c. 1) m ≡ length m
  unfolding tally
  length-tally [] = refl
  length-tally ((j, w) ∷ m) = omega (arith, length-tally m)

  rotated :
      (id j a : ℕ)
      → (id ≡ j → a ≡ 1)
      → choose (ℕ_discrete id j) 1 0 + choose (ℕ_discrete id j) 0 a ≡ a
  rotated id j a h = elim (ℕ_discrete id j) as (λ d. choose d 1 0 + choose d 0 a ≡ a) [
    | yes e ↦ omega (arith, h e)
    | no n ↦ omega arith
  ]

  pub promote-Reordered :
      (id : ℕ) (c : Cached ip K W) (t : Table) → peek id t ≡ some c → Reordered t (promote id t)
  unfolding count tally
  promote-Reordered id c t h =
      let e = iter_promote id c t h in
      let found = sym (peek_iter id t) ∙ h in
      let tallies =
        λ (f : Cached ip K W → ℕ). tally-remove ℕ_discrete f id c (iter t) found (single t id) in
      record {
        same = λ j. peek-promote id j c t h;
        counted =
            λ j. rw (e, count-remove ℕ_discrete id j (iter t)) (rotated id j _ (λ q. here j q));
        tallied = λ f. rw e (sym (tallies f));
        as_long =
            rw
              (
                len_iter (promote id t),
                e,
                len_iter t,
                ← length-tally (iter t),
                ← length-tally (remove ℕ_discrete id (iter t)),
              )
              (omega (arith, tallies (λ d. 1)));
      }
    where
      here : (j : ℕ) → id ≡ j → count ℕ_discrete j (keys (iter t)) ≡ 1
      here j q = rw (← q) (
          omega (arith, single t id, count-pos ℕ_discrete id (iter t) c (sym (peek_iter id t) ∙ h)))
