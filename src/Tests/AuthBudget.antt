-- ===== src/Tests/AuthBudget.antt =====
-- The sign-in budget on small tables, keyed by numbers.
use pari_ns.Prelude.{ℕ, ◌+◌, ◌/◌, ◌^◌, ◌↔◌, ◌≤◌, ◌≡◌, refl, List, [], ◌∷◌, arith, ℕ_discrete}
use pari_ns.Prelude.Assoc.{lookup, insert, remove}
use pari_ns.Prelude.Sweep.{nil-IsSwept}
use pari_ns.Net.{v4, v6, canonical_peer}
use pari_ns.AuthBudget.Table.{
  Sources, accepted, window, expire, last_or, put_back, scan, sweep_rounds, record_attempt,
  admit_source, attempt, identity, masked,
}
use pari_ns.AuthBudget.Account.{inside}
use pari_ns.AuthBudget.Invariant
use pari_ns.AuthBudget.Invariant.{Answers, IsTable}
use pari_ns.AuthBudget.Identity
use pari_ns.AuthBudget.Window
use pari_ns.AuthBudget.Window.{accepted_times}

program : Unit {0}
unfolding expire last_or put_back scan sweep_rounds record_attempt admit_source attempt lookup
    insert remove ℕ_discrete accepted_times inside
program = tt

abbrev empty : Sources ℕ
empty = record { entries = []; sweep = [] }

first_attempt :
    attempt ℕ_discrete 5 7 empty ≡ accepted (record { entries = (7, 5 ∷ []) ∷ []; sweep = 7 ∷ [] })
unfolding program
first_attempt = refl

-- Six attempts within one window, and one more when the first has left it.
abbrev history : List (ℕ × ℕ)
history = (1, 7) ∷ (2, 7) ∷ (3, 7) ∷ (3, 8) ∷ (4, 7) ∷ (5, 7) ∷ (6, 7) ∷ (1 + window, 7) ∷ []

history_times : accepted_times ℕ_discrete 7 history empty [] ≡ (1 + window) ∷ 5 ∷ 4 ∷ 3 ∷ 2 ∷ 1 ∷ []
unfolding program
history_times = refl

mapped_identity : identity (v6 0xffff_c000_0201) ≡ v4 0xc000_0201
unfolding identity masked canonical_peer
mapped_identity = refl

window_bound_example : inside 1 (accepted_times ℕ_discrete 7 history empty []) ≤ 5
window_bound_example = Window.window_bound ℕ_discrete 7 history 1 (omega arith)

attempt-Answers_example : Answers ℕ_discrete (attempt ℕ_discrete 5 7 empty)
unfolding lookup
attempt-Answers_example =
    Invariant.attempt-Answers ℕ_discrete 5 7 empty
      (record { sources = nil-IsSwept ℕ_discrete; bounded = omega arith; budgets = λ k d h. cc })

identity_shared_example :
    (identity (v6 0x2001_0db8_0000_0001_0000_0000_0000_0001)
      ≡ identity (v6 0x2001_0db8_0000_0001_ffff_0000_0000_0002))
    ↔ (0x2001_0db8_0000_0001_0000_0000_0000_0001 / 2 ^ 64
        ≡ 0x2001_0db8_0000_0001_ffff_0000_0000_0002 / 2 ^ 64)
identity_shared_example =
    Identity.identity_shared 0x2001_0db8_0000_0001_0000_0000_0000_0001
      0x2001_0db8_0000_0001_ffff_0000_0000_0002 (omega arith) (omega arith)
