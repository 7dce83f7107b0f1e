-- ===== src/Cache/Best.antt =====
-- cache.rs, `Shard::select`: the entry that the fold over a bucket ends with.
use pari_ns.Prelude.{
  ℕ, ◌-◌, ◌≤◌, ◌<◌, ◌≡◌, refl, sym, some_eq, ◌⊎◌, inl, inr, Bool, true, false, Option, none, some,
  List, [], ◌∷◌, arith, Bool-cases, Option-cases,
}
use pari_ns.Net.{IpNet}
use pari_ns.Ecs.Scope.{Subnet, matches, scope_prefix_len}
use pari_ns.Cache.Select.{
  Entry, Member, is_fresh, is_eligible, rank_le, later_best, best_from, place_of, select,
}

module _ (ip : IpNet) where
  module _ (outgoing : Option Subnet) (now : ℕ) (allow_stale : Bool) where
    abbrev best : Option (Entry ip) → List (Entry ip) → Option (Entry ip)
    best b es = best_from ip outgoing now allow_stale b es

    rank_le_refl : (a : Entry ip) → rank_le ip now a a ≡ true
    unfolding rank_le
    rank_le_refl a = ground arith

    rank_le_trans :
        (a b e : Entry ip)
        → rank_le ip now a b ≡ true
        → rank_le ip now b e ≡ true
        → rank_le ip now a e ≡ true
    unfolding rank_le
    rank_le_trans a b e h k = ground arith

    rank_le_total : (a b : Entry ip) → rank_le ip now a b ≡ false → rank_le ip now b a ≡ true
    unfolding rank_le
    rank_le_total a b h = ground arith

    -- Where there is a candidate already, the result is of no lower rank.
    best_above :
        (b e : Entry ip) (es : List (Entry ip))
        → best (some b) es ≡ some e
        → rank_le ip now b e ≡ true
    unfolding best_from later_best
    best_above b e [] h = let q : b ≡ e = some_eq h in rw q (rank_le_refl e)
    best_above b e (x ∷ es) h = elim (Bool-cases (is_eligible ip outgoing now allow_stale x)) [
      | inr no_ ↦ best_above b e es (rw (no_, best_from) at h)
      | inl ok ↦ elim (Bool-cases (rank_le ip now b x)) [
        | inl le ↦
            rank_le_trans b x e le (best_above x e es (rw (ok, best_from, le, later_best) at h))
        | inr gt ↦ best_above b e es (rw (ok, best_from, gt, later_best) at h)
      ]
    ]

    -- The candidate after an entry is of no lower rank than the entry.
    later_above :
        (o : Option (Entry ip)) (x : Entry ip)
        → (b : Entry ip) × (later_best ip now o x ≡ some b) × (rank_le ip now x b ≡ true)
    unfolding later_best
    later_above none x = (x, refl, rank_le_refl x)
    later_above (some b) x = elim (Bool-cases (rank_le ip now b x)) [
      | inl le ↦ (x, rw (le, later_best) refl, rank_le_refl x)
      | inr gt ↦ (b, rw (gt, later_best) refl, rank_le_total b x gt)
    ]

    best_max :
        (o : Option (Entry ip)) (other e : Entry ip) (es : List (Entry ip))
        → Member ip other es
        → is_eligible ip outgoing now allow_stale other ≡ true
        → best o es ≡ some e
        → rank_le ip now other e ≡ true
    unfolding best_from
    best_max o other e [] m ok h = elim m [ ]
    best_max o other e (x ∷ es) (inl q) ok h =
        let ok_x : is_eligible ip outgoing now allow_stale x ≡ true = rw q at ok in
        let (b, f, above) = later_above o x in
        rw q (rank_le_trans x b e above (best_above b e es (rw (ok_x, best_from, f) at h)))
    best_max o other e (x ∷ es) (inr m) ok h =
        elim (Bool-cases (is_eligible ip outgoing now allow_stale x)) [
          | inl ok_x ↦ best_max (later_best ip now o x) other e es m ok (rw (ok_x, best_from) at h)
          | inr no_ ↦ best_max o other e es m ok (rw (no_, best_from) at h)
        ]

    later_from :
        (o : Option (Entry ip)) (x e : Entry ip)
        → later_best ip now o x ≡ some e
        → (o ≡ some e) ⊎ (e ≡ x)
    unfolding later_best
    later_from none x e h = inr (sym (some_eq h))
    later_from (some b) x e h = elim (Bool-cases (rank_le ip now b x)) [
      | inl le ↦ inr (sym (some_eq (rw (le, later_best) at h)))
      | inr gt ↦ inl (rw (gt, later_best) at h)
    ]

    -- The result is the candidate, or an eligible entry of the list.
    best-Member :
        (o : Option (Entry ip)) (e : Entry ip) (es : List (Entry ip))
        → best o es ≡ some e
        → (o ≡ some e) ⊎ (Member ip e es × (is_eligible ip outgoing now allow_stale e ≡ true))
    unfolding best_from
    best-Member o e [] h = inl h
    best-Member o e (x ∷ es) h = elim (Bool-cases (is_eligible ip outgoing now allow_stale x)) [
      | inr no_ ↦ elim (best-Member o e es (rw (no_, best_from) at h)) [
        | inl q ↦ inl q
        | inr (m, ok) ↦ inr (inr m, ok)
      ]
      | inl ok_x ↦ elim (best-Member (later_best ip now o x) e es (rw (ok_x, best_from) at h)) [
        | inr (m, ok) ↦ inr (inr m, ok)
        | inl q ↦ elim (later_from o x e q) [ inl r ↦ inl r | inr r ↦ inr (inl r, rw r ok_x) ]
      ]
    ]

    best-some : (b : Entry ip) (es : List (Entry ip)) → (e : Entry ip) × (best (some b) es ≡ some e)
    unfolding best_from
    best-some b [] = (b, refl)
    best-some b (x ∷ es) = elim (Bool-cases (is_eligible ip outgoing now allow_stale x)) [
      | inr no_ ↦ rw (no_, best_from) (best-some b es)
      | inl ok ↦ let (b', f, _) = later_above (some b) x in rw (ok, best_from, f) (best-some b' es)
    ]

    best_total :
        (other : Entry ip) (es : List (Entry ip))
        → Member ip other es
        → is_eligible ip outgoing now allow_stale other ≡ true
        → (e : Entry ip) × (best none es ≡ some e)
    unfolding best_from later_best
    best_total other [] m ok = elim m [ ]
    best_total other (x ∷ es) (inl q) ok =
        let ok_x : is_eligible ip outgoing now allow_stale x ≡ true = rw q at ok in
        rw (ok_x, best_from, later_best) (best-some x es)
    best_total other (x ∷ es) (inr m) ok =
        elim (Bool-cases (is_eligible ip outgoing now allow_stale x)) [
          | inl ok_x ↦ rw (ok_x, best_from, later_best) (best-some x es)
          | inr no_ ↦ rw (no_, best_from) (best_total other es m ok)
        ]

    -- What an entry that answers is: in scope, within its retention, fresh unless stale entries are
    -- asked for, and no failure if they are.
    pub record Serves (e : Entry ip) : Type 0 where
      pub in_scope : matches ip e.scope outgoing ≡ true
      pub retained : now - e.inserted < e.retention
      pub fresh_or_stale : (now - e.inserted < e.lifetime) ⊎ (allow_stale ≡ true)
      pub no_failure : (allow_stale ≡ false) ⊎ (e.failure ≡ none)

    eligible-Serves : (e : Entry ip) → is_eligible ip outgoing now allow_stale e ≡ true → Serves e
    unfolding is_eligible
    eligible-Serves e h = record {
      in_scope = ground arith;
      retained = ground arith;
      fresh_or_stale = elim (Bool-cases allow_stale) [
        | inl stale ↦ inr stale
        | inr strict ↦ inl (ground arith)
      ];
      no_failure = elim (Bool-cases allow_stale) [
        | inr strict ↦ inl strict
        | inl stale ↦ elim (Option-cases e.failure) [
          | inl q ↦ inr q
          | inr (f, q) ↦ absurd (ground arith)
        ]
      ];
    }

    -- Of two entries that may answer, the first is not preferred: it is stale where the second is
    -- fresh, or as fresh and of no longer prefix.
    abbrev pub NotPreferred : Entry ip → Entry ip → Type 0
    NotPreferred other e =
        ((is_fresh ip now other ≡ false) × (is_fresh ip now e ≡ true))
        ⊎ ((is_fresh ip now other ≡ is_fresh ip now e)
            × (scope_prefix_len ip other.scope ≤ scope_prefix_len ip e.scope))

    rank_le-NotPreferred : (a b : Entry ip) → rank_le ip now a b ≡ true → NotPreferred a b
    unfolding rank_le
    rank_le-NotPreferred a b h = elim (Bool-cases (is_fresh ip now a)) [
      | inl fresh ↦ inr (ground arith, ground arith)
      | inr stale ↦ elim (Bool-cases (is_fresh ip now b)) [
        | inl fresh ↦ inl (stale, fresh)
        | inr stale' ↦ inr (ground arith, ground arith)
      ]
    ]

    -- Only what may answer is selected: the entry is of the bucket, its scope serves the client,
    -- it is within its retention, and it is fresh unless stale entries are asked for, and then it
    -- is no failure.
    pub select-Serves :
        (es : List (Entry ip)) (place : Bool × ℕ)
        → select ip (some es) outgoing now allow_stale ≡ some place
        → (e : Entry ip) × Member ip e es × (place ≡ place_of ip e) × Serves e
    unfolding select
    select-Serves es place h = elim (Option-cases (best none es)) [
      | inl q ↦ absurd (ground arith)
      | inr (e, q) ↦ elim (best-Member none e es q) [
        | inl r ↦ cc
        | inr (m, ok) ↦ (e, m, sym (some_eq (rw (q, select) at h)), eligible-Serves e ok)
      ]
    ]

    -- If any entry of the bucket may answer, one is selected, and it is the best: no entry that
    -- may answer is fresh where the selected one is stale, or as fresh and of a longer prefix.
    pub select-NotPreferred :
        (es : List (Entry ip)) (other : Entry ip)
        → Member ip other es
        → is_eligible ip outgoing now allow_stale other ≡ true
        → (e : Entry ip) × (select ip (some es) outgoing now allow_stale ≡ some (place_of ip e))
          × Member ip e es
          × NotPreferred other e
    unfolding select
    select-NotPreferred es other m ok =
        let (e, q) = best_total other es m ok in
        elim (best-Member none e es q) [
          | inl r ↦ cc
          | inr (m', _) ↦ (
            e,
            rw (q, select) refl,
            m',
            rank_le-NotPreferred other e (best_max none other e es m ok q),
          )
        ]
