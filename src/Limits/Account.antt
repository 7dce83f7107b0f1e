-- ===== src/Limits/Account.antt =====
-- limits.rs: one source's bucket and granted queries through one call of any source.
use Prim.Native.Nat.add
use native.Mathlib.Nat.{le_trans}
use pari_ns.Prelude.{
  ℕ, ◌+◌, ◌-◌, ◌*◌, ◌≤◌, min, ◌≡◌, refl, ◌∙◌, inl, inr, true, Option, none, some, arith, length,
  choose, Option-cases, Bool-cases, ◌==◌, subst, choose_yes, choose_no,
}
use pari_ns.Prelude.Assoc.{lookup, lookup-insert_rule}
use pari_ns.Limits.Settings.{Settings}
use pari_ns.Limits.Table.{
  Entry, Kind, query, connection, State, Outcome, panic, refused, admitted, Charge, deny, pay,
  reclaim_scan, token, refill, is_idle, charge, fresh, reclaim, insert_source, add_source, settle,
  charge_source, then_charge, acquire,
}
use pari_ns.Limits.Refill.{accrual_split, accrual_mono, refill_gain, refill_updated}
use pari_ns.Limits.Sweeping.{reclaim_rule, reclaim_absent}

-- A query that is paid for is one token of the bucket; a connection costs none.
abbrev pub paid : Kind → ℕ
paid query = 1
paid connection = 0

module _ (s : Settings) (t₀ : ℕ) where
  -- At clock `c`, `g` queries were granted: what is left in the bucket and what was granted never
  -- pass the burst and the accrual since `t₀`.
  abbrev pub Credited : ℕ → ℕ → Option Entry → Type 0
  Credited g c none = g * token ≤ (c - t₀) * s.rate_per_sec
  Credited g c (some e) =
      (g * token + e.credit ≤ s.burst * token + (e.updated - t₀) * s.rate_per_sec)
      × (t₀ ≤ e.updated)
      × (e.updated ≤ c)

  pub Credited-later :
      (g c now : ℕ) (o : Option Entry) → c ≤ now → Credited g c o → Credited g now o
  Credited-later g c now none h p =
      le_trans p (accrual_mono (c - t₀) (now - t₀) s.rate_per_sec (omega arith))
  Credited-later g c now (some e) h p = omega arith

  refill-Credited :
      (g c : ℕ) (e : Entry) → Credited g c (some e) → Credited g c (some (refill s c e))
  refill-Credited g c e p =
      let u : (refill s c e).updated ≡ c = refill_updated s c e ∙ omega arith in
      rw u (
        omega (arith, refill_gain s c e, accrual_split t₀ e.updated c s.rate_per_sec p.1 p.2),
        omega arith,
        omega arith,
      )

  idle-Credited :
      (g c : ℕ) (e : Entry)
      → Credited g c (some e)
      → is_idle s (refill s c e) ≡ true
      → Credited g c none
  idle-Credited g c e p h =
      let q = refill-Credited g c e p in
      le_trans (omega (arith, full (refill s c e) h))
        (accrual_mono ((refill s c e).updated - t₀) (c - t₀) s.rate_per_sec (omega arith))
    where
      full : (f : Entry) → is_idle s f ≡ true → f.credit ≡ s.burst * token
      full f h = unfold is_idle in (ground arith)

  fresh-Credited : (g c : ℕ) → t₀ ≤ c → Credited g c none → Credited g c (some (fresh s c))
  unfolding fresh
  fresh-Credited g c h p = omega arith

  pay-Credited :
      (g c : ℕ) (kind : Kind) (e e' : Entry)
      → charge s kind e ≡ pay e'
      → Credited g c (some e)
      → Credited (paid kind + g) c (some e')
  unfolding charge
  pay-Credited g c query e e' h p = ground arith
  pay-Credited g c connection e e' h p = ground arith

-- The account of the source `k` after a call of any source `j`; a panic has no state to account.
abbrev pub Owed :
    {K : Type 0} → Discrete K → Settings → ℕ → ℕ → K → ℕ → Kind → K → Outcome K → Type 0
Owed dec s t₀ now k g kind j panic = Unit
Owed dec s t₀ now k g kind j (refused d st) = Credited s t₀ g now (lookup dec k st.entries)
Owed dec s t₀ now k g kind j (admitted st) =
    Credited s t₀ (choose (dec j k) (paid kind) 0 + g) now (lookup dec k st.entries)

module _ {K : Type 0} (dec : Discrete K) (s : Settings) (t₀ now : ℕ) (begun : t₀ ≤ now)
    (k : K) where
  settle-Owed :
      (g : ℕ) (kind : Kind) (j : K) (st : State K) (e : Entry) (c : Charge)
      → charge s kind (refill s now e) ≡ c
      → lookup dec j st.entries ≡ some e
      → Credited s t₀ g now (lookup dec k st.entries)
      → Owed dec s t₀ now k g kind j (settle dec s j (refill s now e) st c)
  unfolding settle
  settle-Owed g kind j st e (deny d) h f p =
      lookup-insert_rule dec (Credited s t₀ g now) j k (refill s now e) st.entries
        (λ q. refill-Credited s t₀ g now e (subst (Credited s t₀ g now) (here q) p)) (λ n. p)
    where
      here : j ≡ k → lookup dec k st.entries ≡ some e
      here q = ground arith
  settle-Owed g kind j st e (pay e') h f p =
      lookup-insert_rule dec (Credited s t₀ (choose (dec j k) (paid kind) 0 + g) now) j k e'
        st.entries
        (λ q. rw (choose_yes (dec j k) (paid kind) 0 q) (
          pay-Credited s t₀ g now kind (refill s now e) e' h
            (refill-Credited s t₀ g now e (subst (Credited s t₀ g now) (here q) p))))
        (λ n. rw (choose_no (dec j k) (paid kind) 0 n, add.zero) p)
    where
      here : j ≡ k → lookup dec k st.entries ≡ some e
      here q = ground arith

  charge_source-Owed :
      (g : ℕ) (kind : Kind) (j : K) (st : State K)
      → Credited s t₀ g now (lookup dec k st.entries)
      → Owed dec s t₀ now k g kind j (charge_source dec s now kind j st)
  unfolding charge_source
  charge_source-Owed g kind j st p = elim (Option-cases (lookup dec j st.entries)) [
    | inl e ↦ rw (e, charge_source) tt
    | inr (e, f) ↦
        rw (f, charge_source) (settle-Owed g kind j st e (charge s kind (refill s now e)) refl f p)
  ]

  insert_source-Owed :
      (g : ℕ) (kind : Kind) (j : K) (st : State K)
      → lookup dec j st.entries ≡ none
      → Credited s t₀ g now (lookup dec k st.entries)
      → Owed dec s t₀ now k g kind j (then_charge dec s now kind j (insert_source dec s now j st))
  unfolding insert_source then_charge
  insert_source-Owed g kind j st h p = elim (Bool-cases (length st.entries == s.max_sources)) [
    | inl full ↦ rw (full, then_charge) p
    | inr room ↦
        rw (room, then_charge)
          (charge_source-Owed g kind j _ (
            lookup-insert_rule dec (Credited s t₀ g now) j k (fresh s now) st.entries
              (λ q. fresh-Credited s t₀ g now begun (subst (Credited s t₀ g now) (gone q) p))
              (λ n. p)))
  ]
    where
      gone : j ≡ k → lookup dec k st.entries ≡ none
      gone q = ground arith

  pub acquire-Owed :
      (g : ℕ) (kind : Kind) (j : K) (st : State K)
      → Credited s t₀ g now (lookup dec k st.entries)
      → Owed dec s t₀ now k g kind j (acquire dec s now kind j st)
  unfolding acquire add_source then_charge
  acquire-Owed g kind j st p = elim (Option-cases (lookup dec j st.entries)) [
    | inr (e, f) ↦ rw (f, acquire) (charge_source-Owed g kind j st p)
    | inl e ↦ elim (Bool-cases (length st.entries == s.max_sources)) [
      | inr room ↦ rw (e, acquire, room) (insert_source-Owed g kind j st e p)
      | inl full ↦ elim (Option-cases (reclaim dec s now (min reclaim_scan (length st.sweep)) st)) [
        | inl r ↦ rw (e, acquire, full, r, add_source) tt
        | inr (st', r) ↦
            rw (e, acquire, full, r, add_source)
              (insert_source-Owed g kind j st' (reclaim_absent dec s now _ j st st' e r) (
                reclaim_rule dec s now k (Credited s t₀ g now) (refill-Credited s t₀ g now)
                  (idle-Credited s t₀ g now) _ st st' r p))
      ]
    ]
  ]
