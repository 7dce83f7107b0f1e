-- ===== src/Limits/Sweeping.antt =====
-- limits.rs: the reclamation loop, as one source sees it.
use pari_ns.Prelude.{
  ℕ, zero, suc, ◌≡◌, refl, sym, subst, inl, inr, true, Option, none, some, List, [], ◌∷◌, arith,
  Option-cases, Bool-cases,
}
use pari_ns.Prelude.Assoc.{lookup, insert, remove, lookup-insert_rule, lookup-remove}
use pari_ns.Limits.Settings.{Settings}
use pari_ns.Limits.Table.{
  Entry, State, Scan, stuck, reclaimed, kept, refill, is_idle, scan, reclaim,
}

module _ {K : Type 0} (dec : Discrete K) (s : Settings) (now : ℕ) (k : K)
    (P : Option Entry → Type 0) (keep : (e : Entry) → P (some e) → P (some (refill s now e)))
    (leave : (e : Entry) → P (some e) → is_idle s (refill s now e) ≡ true → P none) where
  abbrev After : Scan K → Type 0
  After stuck = Unit
  After (reclaimed st) = P (lookup dec k st.entries)
  After (kept st) = P (lookup dec k st.entries)

  remove_rule :
      (c : K) (m : List (K × Entry)) (e : Entry)
      → lookup dec c m ≡ some e
      → is_idle s (refill s now e) ≡ true
      → P (lookup dec k m)
      → P (lookup dec k (remove dec c m))
  remove_rule c m e h idle p = elim (dec c k) [
    | yes q ↦ subst P (sym (gone q)) (leave e (subst P (here q) p) idle)
    | no q ↦ subst P (sym (other q)) p
  ]
    where
      gone : c ≡ k → lookup dec k (remove dec c m) ≡ none
      gone q = ground (arith, lookup-remove dec c k m)

      here : c ≡ k → lookup dec k m ≡ some e
      here q = ground arith

      other : ¬ (c ≡ k) → lookup dec k (remove dec c m) ≡ lookup dec k m
      other q = ground (arith, lookup-remove dec c k m)

  insert_rule :
      (c : K) (m : List (K × Entry)) (e : Entry)
      → lookup dec c m ≡ some e
      → P (lookup dec k m)
      → P (lookup dec k (insert dec c (refill s now e) m))
  insert_rule c m e h p =
      lookup-insert_rule dec P c k (refill s now e) m (λ q. keep e (subst P (here q) p)) (λ q. p)
    where
      here : c ≡ k → lookup dec k m ≡ some e
      here q = ground arith

  scan_rule :
      (m : List (K × Entry)) (sweep : List K)
      → P (lookup dec k m)
      → After (scan dec s now (record { entries = m; sweep = sweep }))
  unfolding scan
  scan_rule m [] p = tt
  scan_rule m (c ∷ rest) p = elim (Option-cases (lookup dec c m)) [
    | inl e ↦ rw (e, scan) tt
    | inr (e, f) ↦ elim (Bool-cases (is_idle s (refill s now e))) [
      | inl idle ↦ rw (f, scan, idle) (remove_rule c m e f idle p)
      | inr busy ↦ rw (f, scan, busy) (insert_rule c m e f p)
    ]
  ]

  same_state : (a b : State K) → a ≡ b → P (lookup dec k a.entries) → P (lookup dec k b.entries)
  same_state a b e p = subst (λ (x : State K). P (lookup dec k x.entries)) e p

  pub reclaim_rule :
      (n : ℕ) (st st' : State K)
      → reclaim dec s now n st ≡ some st'
      → P (lookup dec k st.entries)
      → P (lookup dec k st'.entries)
  unfolding reclaim
  reclaim_rule zero st st' e p = same_state st st' (ground arith) p
  reclaim_rule (suc n) st st' e p =
      go (λ b. reclaim_rule n b st') (scan dec s now st) refl (scan_rule st.entries st.sweep p)
    where
      go :
          ((b : State K)
            → reclaim dec s now n b ≡ some st'
            → P (lookup dec k b.entries)
            → P (lookup dec k st'.entries))
          → (o : Scan K) → scan dec s now st ≡ o
          → After o
          → P (lookup dec k st'.entries)
      go again stuck h l = absurd (ground arith)
      go again (reclaimed b) h l = same_state b st' (ground arith) l
      go again (kept b) h l = again b (ground arith) l

-- The sweep brings no source into the table.
pub reclaim_absent :
    {K : Type 0} (dec : Discrete K) (s : Settings) (now n : ℕ) (k : K) (st st' : State K)
    → lookup dec k st.entries ≡ none
    → reclaim dec s now n st ≡ some st'
    → lookup dec k st'.entries ≡ none
reclaim_absent dec s now n k st st' h e =
    reclaim_rule dec s now k (λ o. o ≡ none) (λ e p. cc) (λ e p i. cc) n st st' e h
