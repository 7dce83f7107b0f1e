-- ===== src/AuthBudget/Account.antt =====
-- manage/auth_budget.rs: one source's accepted times through one attempt of any source.
use native.Mathlib.Nat.{le_trans}
use pari_ns.Prelude.{
  ℕ, ◌+◌, ◌-◌, ◌≤◌, ◌<◌, min, max, ◌≡◌, refl, subst, inl, inr, false, Option, none, some, List, [],
  ◌∷◌, ◌++◌, arith, length, length-append, Option-cases, Bool-cases, ltb, leb, ◌&&◌, ◌==◌,
  if◌then◌else◌,
}
use pari_ns.Prelude.Assoc.{lookup, lookup-insert_rule}
use pari_ns.AuthBudget.Table.{
  Sources, Outcome, panic, limited, accepted, expire, last_or, sweep_rounds, record_attempt,
  admit_source, attempt, attempts_max, sources_max, reclaim_scan, window,
}
use pari_ns.AuthBudget.Sweeping.{sweep_rule}
use pari_ns.AuthBudget.Invariant.{Few, length-expire-le}

-- The times of a history that lie in the window that begins at `t`.
unfoldable pub inside : ℕ → List ℕ → ℕ
inside t [] = 0
inside t (x ∷ xs) = (if leb t x && ltb x (t + window) then 1 else 0) + inside t xs

-- The times that are less than a window old at `u`.
pub recent : ℕ → List ℕ → ℕ
recent u [] = 0
recent u (x ∷ xs) = (if leb window (u - x) then 0 else 1) + recent u xs

-- What lies in a window that is open at `u` is recent at `u`.
pub inside-le-recent : (t u : ℕ) (xs : List ℕ) → u < t + window → inside t xs ≤ recent u xs
unfolding inside recent
inside-le-recent t u [] h = omega arith
inside-le-recent t u (x ∷ xs) h = ground (arith, inside-le-recent t u xs h)

-- Expiry at a later time does not see an expiry before it.
expire-expire : (c u : ℕ) (d : List ℕ) → c ≤ u → expire u (expire c d) ≡ expire u d
unfolding expire
expire-expire c u [] h = refl
expire-expire c u (x ∷ d) h = ground (arith, expire-expire c u d h)

-- A new time is not older than any moment at which the call's own time is recent.
expire-push :
    (u now x : ℕ) (d : List ℕ)
    → now ≤ x
    → length (expire u d) + (if leb window (u - now) then 0 else 1)
      ≤ length (expire u (d ++ x ∷ []))
unfolding expire
expire-push u now x [] h = ground arith
expire-push u now x (y ∷ d) h = ground (arith, expire-push u now x d h, length-append d (x ∷ []))

-- The attempts of a source, none where the table does not hold it.
abbrev pub kept : Option (List ℕ) → List ℕ
kept none = []
kept (some d) = d

-- At clock `c`: the table still holds as many times as are recent, now and at any later time.
pub record Tracks (c : ℕ) (times : List ℕ) (o : Option (List ℕ)) : Type 0 where
  pub seen : (u : ℕ) → c ≤ u → recent u times ≤ length (expire u (kept o))
  pub few : Few (kept o)
  pub capped : (t : ℕ) → inside t times ≤ attempts_max

expire-Tracks :
    (c : ℕ) (times d : List ℕ) → Tracks c times (some d) → Tracks c times (some (expire c d))
expire-Tracks c times d p = record {
  seen = λ u h. rw (expire-expire c u d h) (p.seen u h);
  few = le_trans (length-expire-le c d) p.few;
  capped = p.capped;
}

gone-Tracks :
    (c : ℕ) (times d : List ℕ) → Tracks c times (some d) → expire c d ≡ [] → Tracks c times none
gone-Tracks c times d p e = record {
  seen = λ u h. rw (← e) ((expire-Tracks c times d p).seen u h);
  few = omega arith;
  capped = p.capped;
}

pub later-Tracks :
    (c now : ℕ) (times : List ℕ) (o : Option (List ℕ))
    → c ≤ now
    → Tracks c times o
    → Tracks now times o
later-Tracks c now times o h p = record {
  seen = λ u g. p.seen u (le_trans h g);
  few = p.few;
  capped = p.capped;
}

pub start-Tracks : Tracks 0 [] none
unfolding recent inside expire
start-Tracks = record { seen = λ u h. omega arith; few = omega arith; capped = λ t. omega arith }

-- A source that the table does not hold starts with no attempts.
fresh-Tracks : (c : ℕ) (times : List ℕ) → Tracks c times none → Tracks c times (some [])
fresh-Tracks c times p = record { seen = p.seen; few = p.few; capped = p.capped }

push-Tracks :
    (c x : ℕ) (times d : List ℕ)
    → c ≤ x
    → (length (expire c d) == attempts_max) ≡ false
    → Tracks c times (some d)
    → Tracks c (c ∷ times) (some (expire c d ++ x ∷ []))
unfolding recent inside
push-Tracks c x times d h room p = record {
  seen =
      λ u g. omega (arith, (expire-Tracks c times d p).seen u g, expire-push u c x (expire c d) h);
  few = ground (arith, below, length-append (expire c d) (x ∷ []));
  capped = λ t. ground (arith, p.capped t, inside-le-recent t c times, below, p.seen c);
}
  where
    below : length (expire c d) < attempts_max
    below = ground (arith, length-expire-le c d, p.few)

-- The accepted times of the source `k`, newest first, after an attempt of `peer` that was let
-- through at `now`.
abbrev pub noted {ℓ} : {P : Type ℓ} → Dec P → ℕ → List ℕ → List ℕ
noted (yes p) now times = now ∷ times
noted (no n) now times = times

noted_yes {ℓ} :
    {P : Type ℓ} (d : Dec P) (now : ℕ) (times : List ℕ) → P → noted d now times ≡ now ∷ times
noted_yes (yes p) now times h = refl
noted_yes (no n) now times h = absurd (n h)

noted_no {ℓ} : {P : Type ℓ} (d : Dec P) (now : ℕ) (times : List ℕ) → ¬ P → noted d now times ≡ times
noted_no (yes p) now times h = absurd (h p)
noted_no (no n) now times h = refl

module _ {K : Type 0} (dec : Discrete K) (now : ℕ) (k : K) where
  abbrev pub Owed : List ℕ → K → Outcome K → Type 0
  Owed times peer panic = Unit
  Owed times peer (limited st) = Tracks now times (lookup dec k st.entries)
  Owed times peer (accepted st) =
      Tracks now (noted (dec peer k) now times) (lookup dec k st.entries)

  record_attempt-Owed :
      (times : List ℕ) (peer : K) (st : Sources K)
      → Tracks now times (lookup dec k st.entries)
      → Owed times peer (record_attempt dec now peer st)
  unfolding record_attempt
  record_attempt-Owed times peer st p = elim (Option-cases (lookup dec peer st.entries)) [
    | inl e ↦ rw (e, record_attempt) tt
    | inr (d, f) ↦ elim (Bool-cases (length (expire now d) == attempts_max)) [
      | inl full ↦
          rw (f, record_attempt, full)
            (lookup-insert_rule dec (Tracks now times) peer k (expire now d) st.entries
              (λ q. expire-Tracks now times d (subst (Tracks now times) (here d f q) p)) (λ n. p))
      | inr room ↦
          rw (f, record_attempt, room)
            (lookup-insert_rule dec (Tracks now (noted (dec peer k) now times)) peer k _ st.entries
              (λ q. rw (noted_yes (dec peer k) now times q) (
                push-Tracks now (max (last_or now (expire now d)) now) times d (omega arith) room
                  (subst (Tracks now times) (here d f q) p)))
              (λ n. rw (noted_no (dec peer k) now times n) p))
    ]
  ]
    where
      here :
          (d : List ℕ)
          → lookup dec peer st.entries ≡ some d
          → peer ≡ k
          → lookup dec k st.entries ≡ some d
      here d f q = ground arith

  admit_source-Owed :
      (times : List ℕ) (peer : K) (st : Sources K)
      → Tracks now times (lookup dec k st.entries)
      → Owed times peer (admit_source dec now peer st)
  unfolding admit_source
  admit_source-Owed times peer st p = elim (Option-cases (lookup dec peer st.entries)) [
    | inr (d, f) ↦ rw (f, admit_source) (record_attempt-Owed times peer st p)
    | inl e ↦ elim (Bool-cases (length st.entries == sources_max)) [
      | inl full ↦ rw (e, admit_source, full) p
      | inr room ↦
          rw (e, admit_source, room)
            (record_attempt-Owed times peer _ (
              lookup-insert_rule dec (Tracks now times) peer k [] st.entries
                (λ q. fresh-Tracks now times (subst (Tracks now times) (gone e q) p)) (λ n. p)))
    ]
  ]
    where
      gone : lookup dec peer st.entries ≡ none → peer ≡ k → lookup dec k st.entries ≡ none
      gone e q = ground arith

  pub attempt-Owed :
      (times : List ℕ) (peer : K) (st : Sources K)
      → Tracks now times (lookup dec k st.entries)
      → Owed times peer (attempt dec now peer st)
  unfolding attempt
  attempt-Owed times peer st p =
      elim (Option-cases (sweep_rounds dec now (min reclaim_scan (length st.sweep)) st)) [
        | inl e ↦ rw (e, attempt) tt
        | inr (b, e) ↦
            rw (e, attempt)
              (admit_source-Owed times peer b (
                sweep_rule dec now k (Tracks now times) (expire-Tracks now times)
                  (gone-Tracks now times) _ st b e p))
      ]
