-- ===== src/Limits/Rate.antt =====
-- limits.rs: histories of calls and drops by any sources.
use Prim.Native.Nat.add
use native.Mathlib.Nat.{le_trans}
use pari_ns.Prelude.{
  ℕ, ◌+◌, ◌-◌, ◌*◌, ◌≤◌, ◌≡◌, inl, inr, Option, none, some, List, [], ◌∷◌, arith, choose,
  Option-cases, subst,
}
use pari_ns.Prelude.Assoc.{lookup, lookup-insert_rule}
use pari_ns.Limits.Settings.{Settings}
use pari_ns.Limits.Table.{
  Entry, Kind, query, connection, State, Outcome, panic, refused, admitted, token, acquire, release,
  release_kind,
}
use pari_ns.Limits.Refill.{accrual_mono}
use pari_ns.Limits.Account.{Credited, Credited-later, Owed, acquire-Owed, paid}

-- A history of calls: what a task asks of the table, and the permits that are dropped.
pub data Event (K : Type 0) : Type 0 where
  asks : ℕ → Kind → K → Event K
  drops : Kind → K → Event K

-- The times of a history do not fall, and lie between `a` and `b`.
abbrev pub Ordered : {K : Type 0} → ℕ → ℕ → List (Event K) → Type 0
Ordered a b [] = a ≤ b
Ordered a b (asks now kind j ∷ es) = (a ≤ now) × Ordered now b es
Ordered a b (drops kind j ∷ es) = Ordered a b es

-- The table after a call. A panic, and a drop that panics, leave it as it was.
abbrev pub after : {K : Type 0} → State K → Outcome K → State K
after st panic = st
after st (refused d st') = st'
after st (admitted st') = st'

abbrev pub after_drop : {K : Type 0} → State K → Option (State K) → State K
after_drop st none = st
after_drop st (some st') = st'

module _ {K : Type 0} (dec : Discrete K) (s : Settings) (k : K) where
  -- The queries that one call admits for the source `k`: one, or none.
  abbrev pub gain : Kind → K → Outcome K → ℕ
  gain kind j (admitted st) = choose (dec j k) (paid kind) 0
  gain kind j _ = 0

  -- The queries that a whole history admits for the source `k`.
  unfoldable pub granted : List (Event K) → State K → ℕ
  granted [] st = 0
  granted (asks now kind j ∷ es) st =
      let o = acquire dec s now kind j st in gain kind j o + granted es (after st o)
  granted (drops kind j ∷ es) st = granted es (after_drop st (release dec j kind st))

  module _ (t₀ : ℕ) where
    asked :
        (g now : ℕ) (kind : Kind) (j : K) (st : State K) (o : Outcome K)
        → Credited s t₀ g now (lookup dec k st.entries)
        → Owed dec s t₀ now k g kind j o
        → Credited s t₀ (gain kind j o + g) now (lookup dec k (after st o).entries)
    asked g now kind j st panic p w = rw add.zero p
    asked g now kind j st (refused d st') p w = rw add.zero w
    asked g now kind j st (admitted st') p w = w

    dropped :
        (g c : ℕ) (kind : Kind) (j : K) (st : State K)
        → Credited s t₀ g c (lookup dec k st.entries)
        → Credited s t₀ g c (lookup dec k (after_drop st (release dec j kind st)).entries)
    unfolding release release_kind
    dropped g c kind j st p = elim (Option-cases (lookup dec j st.entries)) [
      | inl e ↦ rw (e, release) p
      | inr (e, f) ↦ elim (Option-cases (release_kind kind e)) [
        | inl r ↦ rw (f, r, release) p
        | inr (e', r) ↦
            rw (f, r, release)
              (lookup-insert_rule dec (Credited s t₀ g c) j k e' st.entries
                (λ q. returned kind e e' r (subst (Credited s t₀ g c) (here e q f) p)) (λ n. p))
      ]
    ]
      where
        here :
            (e : Entry)
            → j ≡ k
            → lookup dec j st.entries ≡ some e
            → lookup dec k st.entries ≡ some e
        here e q f = ground arith

        returned :
            (kind : Kind) (e e' : Entry)
            → release_kind kind e ≡ some e'
            → Credited s t₀ g c (some e)
            → Credited s t₀ g c (some e')
        returned query e e' r p = ground arith
        returned connection e e' r p = ground arith

    granted_from :
        (es : List (Event K)) (g c t₁ : ℕ) (st : State K)
        → t₀ ≤ c
        → Ordered c t₁ es
        → Credited s t₀ g c (lookup dec k st.entries)
        → (granted es st + g) * token ≤ s.burst * token + (t₁ - t₀) * s.rate_per_sec
    unfolding granted
    granted_from [] g c t₁ st b o p =
        le_trans (spent (lookup dec k st.entries) p)
          (omega (arith, accrual_mono (c - t₀) (t₁ - t₀) s.rate_per_sec (omega arith)))
      where
        spent :
            (e : Option Entry)
            → Credited s t₀ g c e
            → (0 + g) * token ≤ s.burst * token + (c - t₀) * s.rate_per_sec
        spent none q = omega arith
        spent (some e) q =
            omega (arith, accrual_mono (e.updated - t₀) (c - t₀) s.rate_per_sec (omega arith))
    granted_from (asks now kind j ∷ es) g c t₁ st b o p =
        let begun : t₀ ≤ now = omega arith in
        let before = Credited-later s t₀ g c now (lookup dec k st.entries) o.0 p in
        let outcome = acquire dec s now kind j st in
        let q =
          asked g now kind j st outcome before
            (acquire-Owed dec s t₀ now begun k g kind j st before) in
        let rest =
          granted_from es (gain kind j outcome + g) now t₁ (after st outcome) begun o.1 q in
        omega (arith, rest)
    granted_from (drops kind j ∷ es) g c t₁ st b o p =
        granted_from es g c t₁ _ b o (dropped g c kind j st p)

    -- Over any history whose times do not fall, between `t₀` and `t₁`, that starts from an empty
    -- table: the queries admitted for one source cost at most the burst and the rate's accrual
    -- over the time that passed, whatever the other sources ask, and however often the source's
    -- entry is evicted and made again.
    pub granted_bound :
        (es : List (Event K)) (t₁ : ℕ)
        → Ordered t₀ t₁ es
        → granted es (record { entries = []; sweep = [] }) * token
          ≤ s.burst * token + (t₁ - t₀) * s.rate_per_sec
    granted_bound es t₁ o = omega (
      arith,
      granted_from es 0 t₀ t₁ (record { entries = []; sweep = [] }) (omega arith) o
          (unfold lookup in (omega arith)),
    )
