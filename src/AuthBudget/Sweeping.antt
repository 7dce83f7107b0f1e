-- ===== src/AuthBudget/Sweeping.antt =====
-- manage/auth_budget.rs: the sweep, as one source sees it.
use pari_ns.Prelude.{
  ℕ, zero, suc, ◌≡◌, refl, sym, subst, inl, inr, Option, none, some, List, [], ◌∷◌, arith,
  Option-cases,
}
use pari_ns.Prelude.Assoc.{lookup, remove, lookup-insert_rule, lookup-remove}
use pari_ns.AuthBudget.Table.{Sources, expire, put_back, scan, sweep_rounds}

module _ {K : Type 0} (dec : Discrete K) (now : ℕ) (k : K) (P : Option (List ℕ) → Type 0)
    (keep : (d : List ℕ) → P (some d) → P (some (expire now d)))
    (leave : (d : List ℕ) → P (some d) → expire now d ≡ [] → P none) where
  put_back_rule :
      (c : K) (rest : List K) (m : List (K × List ℕ)) (d left : List ℕ)
      → lookup dec c m ≡ some d
      → expire now d ≡ left
      → P (lookup dec k m)
      → P (lookup dec k (put_back dec c rest left m).entries)
  unfolding put_back
  put_back_rule c rest m d [] h e p = elim (dec c k) [
    | yes q ↦ subst P (sym (gone q)) (leave d (subst P (here q) p) e)
    | no q ↦ subst P (sym (other q)) p
  ]
    where
      gone : c ≡ k → lookup dec k (remove dec c m) ≡ none
      gone q = ground (arith, lookup-remove dec c k m)

      here : c ≡ k → lookup dec k m ≡ some d
      here q = ground arith

      other : ¬ (c ≡ k) → lookup dec k (remove dec c m) ≡ lookup dec k m
      other q = ground (arith, lookup-remove dec c k m)
  put_back_rule c rest m d (at ∷ later) h e p =
      lookup-insert_rule dec P c k (at ∷ later) m
        (λ q. subst (λ (l : List ℕ). P (some l)) e (keep d (subst P (here q) p))) (λ q. p)
    where
      here : c ≡ k → lookup dec k m ≡ some d
      here q = ground arith

  abbrev After : Option (Sources K) → Type 0
  After none = Unit
  After (some st) = P (lookup dec k st.entries)

  scan_rule :
      (m : List (K × List ℕ)) (sweep : List K)
      → P (lookup dec k m)
      → After (scan dec now (record { entries = m; sweep = sweep }))
  unfolding scan
  scan_rule m [] p = tt
  scan_rule m (c ∷ rest) p = elim (Option-cases (lookup dec c m)) [
    | inl e ↦ rw (e, scan) tt
    | inr (d, f) ↦ rw (f, scan) (put_back_rule c rest m d (expire now d) f refl p)
  ]

  same_state : (a b : Sources K) → a ≡ b → P (lookup dec k a.entries) → P (lookup dec k b.entries)
  same_state a b e p = subst (λ (x : Sources K). P (lookup dec k x.entries)) e p

  pub sweep_rule :
      (n : ℕ) (st st' : Sources K)
      → sweep_rounds dec now n st ≡ some st'
      → P (lookup dec k st.entries)
      → P (lookup dec k st'.entries)
  unfolding sweep_rounds
  sweep_rule zero st st' e p = same_state st st' (ground arith) p
  sweep_rule (suc n) st st' e p =
      go (λ b. sweep_rule n b st') (scan dec now st) refl (scan_rule st.entries st.sweep p)
    where
      go :
          ((b : Sources K)
            → sweep_rounds dec now n b ≡ some st'
            → P (lookup dec k b.entries)
            → P (lookup dec k st'.entries))
          → (o : Option (Sources K)) → scan dec now st ≡ o
          → After o
          → P (lookup dec k st'.entries)
      go again none h l = absurd (ground arith)
      go again (some b) h l = again b (ground arith) l
