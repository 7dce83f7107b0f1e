-- ===== src/Limits/Refill.antt =====
-- limits.rs, `Entry::refill`: the token bucket.
use native.Mathlib.Nat.{mod-le}
use pari_ns.Prelude.{ℕ, ◌+◌, ◌-◌, ◌*◌, ◌≤◌, min, ◌≡◌, max, none, sym, ◌∙◌, arith, dec_le}
use pari_ns.Limits.Settings.{Settings, validate}
use pari_ns.Limits.Table.{Entry, token, refill, u64_mod}

pub mul_add_right : (a b r : ℕ) → (a + b) * r ≡ a * r + b * r
mul_add_right a b r = omega arith

-- The accrual over an interval is the sum of the accruals over its parts.
pub accrual_split : (a b c r : ℕ) → a ≤ b → b ≤ c → (c - a) * r ≡ (b - a) * r + (c - b) * r
accrual_split a b c r h k =
    let e : c - a ≡ (b - a) + (c - b) = omega arith in rw e (mul_add_right (b - a) (c - b) r)

pub accrual_mono : (a b r : ℕ) → a ≤ b → a * r ≤ b * r
accrual_mono a b r h = grind arith

-- The interval is empty when the clock reads earlier than the entry's.
accrual_zero : (a b r : ℕ) → b ≤ a → (b - a) * r ≡ 0
accrual_zero a b r h = let e : b - a ≡ 0 = omega arith in rw e (omega arith)

pub validate_burst : (s : Settings) → validate s ≡ none → s.burst ≤ 1000000
unfolding validate
validate_burst s h = ground arith

-- With accepted settings the credit fits 64 bits, so the cast is the identity.
pub refill_credit :
    (s : Settings) (now : ℕ) (e : Entry)
    → validate s ≡ none
    → e.credit ≤ s.burst * token
    → (refill s now e).credit
      ≡ min (e.credit + (now - e.updated) * s.rate_per_sec) (s.burst * token)
unfolding refill
refill_credit s now e v h =
    ground (arith, validate_burst s v, accrual_zero e.updated now s.rate_per_sec)

pub refill_updated :
    (s : Settings) (now : ℕ) (e : Entry) → (refill s now e).updated ≡ max e.updated now
unfolding refill
refill_updated s now e = ground arith

pub refill_bound :
    (s : Settings) (now : ℕ) (e : Entry)
    → e.credit ≤ s.burst * token
    → (refill s now e).credit ≤ s.burst * token
unfolding refill
refill_bound s now e h =
    ground (
      arith,
      mod-le (min (e.credit + (now - e.updated) * s.rate_per_sec) (s.burst * token)) u64_mod,
    )

pub refill_gain :
    (s : Settings) (now : ℕ) (e : Entry)
    → (refill s now e).credit ≤ e.credit + (now - e.updated) * s.rate_per_sec
unfolding refill
refill_gain s now e =
    ground (
      arith,
      mod-le (min (e.credit + (now - e.updated) * s.rate_per_sec) (s.burst * token)) u64_mod,
    )

pub refill_counts :
    (s : Settings) (now : ℕ) (e : Entry)
    → ((refill s now e).queries ≡ e.queries) × ((refill s now e).connections ≡ e.connections)
unfolding refill
refill_counts s now e = ground arith

entry_ext :
    (a b : Entry)
    → a.credit ≡ b.credit
    → a.updated ≡ b.updated
    → a.queries ≡ b.queries
    → a.connections ≡ b.connections
    → a ≡ b
entry_ext a b c u q n =
    λ i. record { credit = c i; updated = u i; queries = q i; connections = n i }

-- Accrual in two steps, each cut off at the same burst.
accrual_min :
    (c b upd t u r : ℕ)
    → c ≤ b
    → t ≤ u
    → min (min (c + (t - upd) * r) b + (u - max upd t) * r) b ≡ min (c + (u - upd) * r) b
accrual_min c b upd t u r h k = elim (dec_le upd t) [
  | yes o ↦ let m : max upd t ≡ t = omega arith in rw m (omega (arith, accrual_split upd t u r o k))
  | no o ↦
      let m : max upd t ≡ upd = omega arith in
      rw (m, accrual_zero upd t r (omega arith)) (omega arith)
]

-- With accepted settings, and a credit within the burst, a refill at a later time gives the same
-- credit and clock whether or not the entry was refilled in between: no refill loses a fraction
-- of a token, and none adds one.
refill-refill :
    (s : Settings) (t u : ℕ) (e : Entry)
    → validate s ≡ none
    → e.credit ≤ s.burst * token
    → t ≤ u
    → refill s u (refill s t e) ≡ refill s u e
refill-refill s t u e v h k =
    entry_ext _ _
      (refill_credit s u (refill s t e) v (refill_bound s t e h)
        ∙ credit
        ∙ sym (refill_credit s u e v h))
      (omega (arith, refill_updated s u (refill s t e), refill_updated s t e, refill_updated s u e))
      (omega (arith, refill_counts s u (refill s t e), refill_counts s t e, refill_counts s u e))
      (omega (arith, refill_counts s u (refill s t e), refill_counts s t e, refill_counts s u e))
  where
    r : ℕ
    r = s.rate_per_sec

    credit :
        min ((refill s t e).credit + (u - (refill s t e).updated) * r) (s.burst * token)
        ≡ min (e.credit + (u - e.updated) * r) (s.burst * token)
    credit =
        rw (refill_credit s t e v h, refill_updated s t e)
          (accrual_min e.credit (s.burst * token) e.updated t u r h k)
