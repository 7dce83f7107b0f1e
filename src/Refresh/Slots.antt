-- ===== src/Refresh/Slots.antt =====
-- resolver/refresh.rs: the owner together with the tasks that it started, over any history.
use pari_ns.Prelude.{
  subst, ite, ℕ, ◌+◌, ◌≤◌, ◌<◌, ◌≡◌, refl, sym, ap, inl, inr, Bool, true, false, Option, none, some,
  List, [], ◌∷◌, arith, ltb, length, length-append, count, choose, Bool-cases, Option-cases,
}
use pari_ns.Refresh.Owner.{
  make_room, Purpose, prefetch, fill, PrefetchConfig, capacity_of, State, default, Completion,
  Rejection, duplicate, cooling, budget, tidy, rejection, count_rejection, completion, start,
  decide, schedule, cancel, without, finish,
}
use pari_ns.Refresh.Room.{
  length-retain-le, length-pop_starts-le, count-without, length-without-le, length-make_room,
  length-insert-le,
}

module _ {K : Type 0} (dec : Discrete K) where
  -- One of the tasks that run for a key ends.
  unfoldable pub ended : K → List K → List K
  ended key [] = []
  ended key (k ∷ ks) = ite (dec key k) ks (k ∷ ended key ks)

  abbrev pub spawned : Option (Completion dec) → List K → List K
  spawned none tasks = tasks
  spawned (some d) tasks = d.key ∷ tasks

  count-ended :
      (key k : K) (ks : List K)
      → 0 < count dec key ks
      → count dec k (ended key ks) + choose (dec key k) 1 0 ≡ count dec k ks
  unfolding count ended
  count-ended key k [] h = absurd (omega arith)
  count-ended key k (j ∷ ks) h = ground (arith, count-ended key k ks)

  pub length-ended : (key : K) (ks : List K) → length (ended key ks) ≤ length ks
  unfolding ended
  length-ended key [] = omega arith
  length-ended key (k ∷ ks) = ground (arith, length-ended key ks)

  started_once :
      (key k : K) (tasks : List K)
      → count dec key tasks ≡ 0
      → count dec k tasks ≤ 1
      → choose (dec key k) 1 0 + count dec k tasks ≤ 1
  started_once key k tasks h w = elim (dec key k) as (λ d. choose d 1 0 + count dec k tasks ≤ 1) [
    | yes e ↦ omega (arith, ap (λ x. count dec x tasks) e)
    | no n ↦ omega arith
  ]

  module _ (c : PrefetchConfig) where
    -- The owner and the keys of the tasks that hold a completion. Tasks are started by `schedule`
    -- alone, end in any order and with any result, and may outlive `cancel`.
    pub data Steps (st0 : State dec) (tasks0 : List K) : State dec → List K → Type 0 where
      begin : Steps st0 tasks0 st0 tasks0
      schedules :
          (purpose : Purpose) (now : ℕ) (key : Option K) (st : State dec) (tasks : List K)
          → Steps st0 tasks0 st tasks
          → Steps st0 tasks0
              (schedule dec c purpose now key st).1
              (spawned (schedule dec c purpose now key st).0 tasks)
      finishes :
          (key : K) (result : Option Bool) (now : ℕ) (st : State dec) (tasks : List K)
          → 0 < count dec key tasks
          → Steps st0 tasks0 st tasks
          → Steps st0 tasks0 (finish dec (completion dec c key) result now st) (ended key tasks)
      cancels :
          (st : State dec) (tasks : List K)
          → Steps st0 tasks0 st tasks
          → Steps st0 tasks0 (cancel dec st) tasks

    -- Each running task has its key in the set, no key runs twice, and the set, the starts and the
    -- failure table are within their limits.
    pub record IsOwner (st : State dec) (tasks : List K) : Type 0 where
      pub slots : (k : K) → count dec k st.active ≡ count dec k tasks
      pub once : (k : K) → count dec k tasks ≤ 1
      pub in_flight : length st.active ≤ c.max_inflight
      pub paced : length st.starts ≤ c.rate_per_sec
      pub cooled : length st.cooldown ≤ capacity_of c

    tidy-IsOwner :
        (now : ℕ) (st : State dec) (tasks : List K)
        → IsOwner st tasks
        → IsOwner (tidy dec now st) tasks
    unfolding tidy
    tidy-IsOwner now st tasks w = record {
      slots = w.slots;
      once = w.once;
      in_flight = w.in_flight;
      paced = omega (arith, w.paced, length-pop_starts-le now st.starts);
      cooled = omega (arith, w.cooled, length-retain-le (λ (q : K × ℕ). ltb now q.1) st.cooldown);
    }

    rejected-IsOwner :
        (purpose : Purpose) (reason : Rejection dec) (st : State dec) (tasks : List K)
        → IsOwner st tasks
        → IsOwner (count_rejection dec purpose reason st) tasks
    unfolding count_rejection
    rejected-IsOwner fill reason st tasks w = record {
      slots = w.slots;
      once = w.once;
      in_flight = w.in_flight;
      paced = w.paced;
      cooled = w.cooled;
    }
    rejected-IsOwner prefetch duplicate st tasks w = record {
      slots = w.slots;
      once = w.once;
      in_flight = w.in_flight;
      paced = w.paced;
      cooled = w.cooled;
    }
    rejected-IsOwner prefetch cooling st tasks w = record {
      slots = w.slots;
      once = w.once;
      in_flight = w.in_flight;
      paced = w.paced;
      cooled = w.cooled;
    }
    rejected-IsOwner prefetch budget st tasks w = record {
      slots = w.slots;
      once = w.once;
      in_flight = w.in_flight;
      paced = w.paced;
      cooled = w.cooled;
    }

    start-IsOwner :
        (now : ℕ) (key : K) (st : State dec) (tasks : List K)
        → rejection dec c key st ≡ none
        → IsOwner st tasks
        → IsOwner (start dec now key st) (key ∷ tasks)
    unfolding start rejection count
    start-IsOwner now key st tasks h w =
        let free : count dec key st.active ≡ 0 = ground arith in
        record {
          slots = λ k. omega (arith, w.slots k);
          once = λ k. started_once key k tasks (omega (arith, free, w.slots key)) (w.once k);
          in_flight = ground arith;
          paced = ground (arith, length-append st.starts (now ∷ []));
          cooled = w.cooled;
        }

    pub closed_lem :
        (purpose : Purpose) (now : ℕ) (key : K) (st : State dec)
        → st.closed ≡ true
        → decide dec c purpose now key st ≡ (none, st)
    unfolding decide
    closed_lem purpose now key st q = ground arith

    refused_lem :
        (purpose : Purpose) (now : ℕ) (key : K) (reason : Rejection dec) (st : State dec)
        → st.closed ≡ false
        → rejection dec c key st ≡ some reason
        → decide dec c purpose now key st ≡ (none, count_rejection dec purpose reason st)
    unfolding decide
    refused_lem purpose now key reason st q h = ground arith

    started_lem :
        (purpose : Purpose) (now : ℕ) (key : K) (st : State dec)
        → st.closed ≡ false
        → rejection dec c key st ≡ none
        → decide dec c purpose now key st ≡ (some (completion dec c key), start dec now key st)
    unfolding decide
    started_lem purpose now key st q h = ground arith

    abbrev Next : List K → Option (Completion dec) × State dec → Type 0
    Next tasks r = IsOwner r.1 (spawned r.0 tasks)

    decide-IsOwner :
        (purpose : Purpose) (now : ℕ) (key : K) (st : State dec) (tasks : List K)
        → IsOwner st tasks
        → Next tasks (decide dec c purpose now key st)
    decide-IsOwner purpose now key st tasks w = elim (Bool-cases st.closed) [
      | inl q ↦ subst (λ r. Next tasks r) (sym (closed_lem purpose now key st q)) w
      | inr q ↦ elim (Option-cases (rejection dec c key st)) [
        | inl free ↦
            subst (λ r. Next tasks r) (sym (started_lem purpose now key st q free))
              (start-IsOwner now key st tasks free w)
        | inr (reason, no_) ↦
            subst (λ r. Next tasks r) (sym (refused_lem purpose now key reason st q no_))
              (rejected-IsOwner purpose reason st tasks w)
      ]
    ]

    schedule-IsOwner :
        (purpose : Purpose) (now : ℕ) (key : Option K) (st : State dec) (tasks : List K)
        → IsOwner st tasks
        → IsOwner
            (schedule dec c purpose now key st).1
            (spawned (schedule dec c purpose now key st).0 tasks)
    unfolding schedule
    schedule-IsOwner purpose now none st tasks w = w
    schedule-IsOwner purpose now (some key) st tasks w =
        decide-IsOwner purpose now key (tidy dec now st) tasks (tidy-IsOwner now st tasks w)

    ended_slot :
        (key k : K) (st : State dec) (tasks : List K)
        → 0 < count dec key tasks
        → IsOwner st tasks
        → count dec k (without dec key st.active) ≡ count dec k (ended key tasks)
    ended_slot key k st tasks h w = rw (count-without dec key k st.active) (
        elim (dec key k)
            as (λ d.
              count dec k (ended key tasks) + choose d 1 0 ≡ count dec k tasks
              → choose d 0 (count dec k st.active) ≡ count dec k (ended key tasks)) [
                | yes e ↦ λ q. omega (arith, w.once k, q, ap (λ x. count dec x tasks) e)
                | no n ↦ λ q. omega (arith, w.slots k, q)
              ]
          (count-ended key k tasks h))

    capacity_pos : 0 < capacity_of c
    unfolding capacity_of
    capacity_pos = omega arith

    finish-IsOwner :
        (key : K) (result : Option Bool) (now : ℕ) (st : State dec) (tasks : List K)
        → 0 < count dec key tasks
        → IsOwner st tasks
        → IsOwner (finish dec (completion dec c key) result now st) (ended key tasks)
    unfolding finish
    finish-IsOwner key none now st tasks h w = record {
      slots = λ k. ended_slot key k st tasks h w;
      once = λ k. omega (arith, w.once k, count-ended key k tasks h);
      in_flight = omega (arith, w.in_flight, length-without-le dec key st.active);
      paced = w.paced;
      cooled = w.cooled;
    }
    finish-IsOwner key (some true) now st tasks h w = record {
      slots = λ k. ended_slot key k st tasks h w;
      once = λ k. omega (arith, w.once k, count-ended key k tasks h);
      in_flight = omega (arith, w.in_flight, length-without-le dec key st.active);
      paced = w.paced;
      cooled = w.cooled;
    }
    finish-IsOwner key (some false) now st tasks h w = record {
      slots = λ k. ended_slot key k st tasks h w;
      once = λ k. omega (arith, w.once k, count-ended key k tasks h);
      in_flight = omega (arith, w.in_flight, length-without-le dec key st.active);
      paced = w.paced;
      cooled = elim (Bool-cases st.closed) [
        | inl q ↦ rw q w.cooled
        | inr q ↦ rw q (
            omega (
              arith,
              length-insert-le dec key (now + (completion dec c key).backoff)
                  (make_room dec (capacity_of c) st.cooldown),
              length-make_room dec (capacity_of c) st.cooldown capacity_pos w.cooled,
            ))
      ];
    }

    pub Steps-IsOwner :
        (st0 : State dec) (tasks0 : List K) (st : State dec) (tasks : List K)
        → IsOwner st0 tasks0
        → Steps st0 tasks0 st tasks
        → IsOwner st tasks
    unfolding cancel
    Steps-IsOwner st0 tasks0 _ _ w begin = w
    Steps-IsOwner st0 tasks0 _ _ w (schedules purpose now key st tasks h) =
        schedule-IsOwner purpose now key st tasks (Steps-IsOwner st0 tasks0 st tasks w h)
    Steps-IsOwner st0 tasks0 _ _ w (finishes key result now st tasks running h) =
        finish-IsOwner key result now st tasks running (Steps-IsOwner st0 tasks0 st tasks w h)
    Steps-IsOwner st0 tasks0 _ _ w (cancels st tasks h) =
        let v = Steps-IsOwner st0 tasks0 st tasks w h in
        record {
          slots = v.slots;
          once = v.once;
          in_flight = v.in_flight;
          paced = v.paced;
          cooled = v.cooled;
        }

    pub default-IsOwner : IsOwner (default dec) []
    unfolding count
    default-IsOwner = record {
      slots = λ k. refl;
      once = λ k. none_le k;
      in_flight = omega arith;
      paced = omega arith;
      cooled = omega arith;
    }
      where
        none_le : (k : K) → count dec k [] ≤ 1
        none_le k = omega arith
