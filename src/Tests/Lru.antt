-- ===== src/Tests/Lru.antt =====
-- A concrete cache in order of use that meets the interface of the `lru` crate: an association
-- list, the most recently used entry first.
use pari_ns.Prelude.{
  ℕ, ◌+◌, ◌≤◌, refl, none, some, List, [], ◌∷◌, ◌++◌, arith, length, count, choose, ℕ_discrete,
}
use pari_ns.Prelude.Assoc.{keys, lookup, remove, count-remove}
use pari_ns.Prelude.Snoc.{count-snoc}
use pari_ns.Cache.Lru.{LruCache, last}

module _ (V : Type 0) where
  abbrev Once : List (ℕ × V) → Type 0
  Once m = (id : ℕ) → count ℕ_discrete id (keys m) ≤ 1

  -- The list, in which an id stands at most once.
  abbrev Used : Type 0
  Used = (m : List (ℕ × V)) × Once m

  choose_le : {P : Type 0} (d : Dec P) (a : ℕ) → a ≤ 1 → choose d 0 a ≤ 1
  choose_le (yes p) a h = omega arith
  choose_le (no p) a h = h

  choose_both : {P : Type 0} (d : Dec P) (a : ℕ) → a ≤ 1 → choose d 1 0 + choose d 0 a ≤ 1
  choose_both (yes p) a h = omega arith
  choose_both (no p) a h = omega arith

  pub remove-Once : (id : ℕ) (m : List (ℕ × V)) → Once m → Once (remove ℕ_discrete id m)
  remove-Once id m h j = rw (count-remove ℕ_discrete id j m) (choose_le (ℕ_discrete id j) _ (h j))

  pub front-Once :
      (id : ℕ) (v : V) (m : List (ℕ × V)) → Once m → Once ((id, v) ∷ remove ℕ_discrete id m)
  unfolding count
  front-Once id v m h j =
      rw (count-remove ℕ_discrete id j m) (choose_both (ℕ_discrete id j) _ (h j))

  pub back-Once :
      (id : ℕ) (v : V) (m : List (ℕ × V)) → Once m → Once (remove ℕ_discrete id m ++ (id, v) ∷ [])
  back-Once id v m h j =
      rw (count-snoc ℕ_discrete j id v (remove ℕ_discrete id m), count-remove ℕ_discrete id j m)
        (choose_both (ℕ_discrete id j) _ (h j))

  unfoldable pub pop_used : ℕ → Used → Used
  pop_used id t = (remove ℕ_discrete id t.0, remove-Once id t.0 t.1)

  unfoldable pub put_used : ℕ → V → Used → Used
  put_used id v t = ((id, v) ∷ remove ℕ_discrete id t.0, front-Once id v t.0 t.1)

  unfoldable pub promote_used : ℕ → Used → Used
  promote_used id t = elim (lookup ℕ_discrete id t.0) [ none ↦ t | some v ↦ put_used id v t ]

  unfoldable pub demote_used : ℕ → Used → Used
  demote_used id t = elim (lookup ℕ_discrete id t.0) [
    | none ↦ t
    | some v ↦ (remove ℕ_discrete id t.0 ++ (id, v) ∷ [], back-Once id v t.0 t.1)
  ]

  unfoldable pub used_lru : LruCache V
  unfolding pop_used put_used promote_used demote_used count
  used_lru = record {
    Table = Used;
    unbounded = ([], λ id. omega arith);
    iter = λ t. t.0;
    len = λ t. length t.0;
    peek = λ id t. lookup ℕ_discrete id t.0;
    promote = promote_used;
    pop = pop_used;
    put = put_used;
    demote = demote_used;
    peek_lru = λ t. last t.0;
    unbounded_iter = refl;
    single = λ t id. t.1 id;
    len_iter = λ t. refl;
    peek_iter = λ id t. refl;
    peek_lru_iter = λ t. refl;
    iter_pop = λ id t. refl;
    iter_put = λ id v t. refl;
    iter_promote = λ id v t h. rw (h, promote_used) refl;
    iter_demote = λ id v t h. rw (h, demote_used) refl;
  }
