-- ===== src/Refresh/Life.antt =====
-- resolver/refresh.rs: what holds of the owner and its tasks over any history.
use pari_ns.Prelude.{subst, ◌≤◌, ◌≡◌, refl, sym, true, false, none, some, List, [], arith, length}
use pari_ns.Refresh.Owner.{PrefetchConfig, State, default, tidy, schedule, cancel, finish}
use pari_ns.Refresh.Slots.{
  spawned, length-ended, Steps, begin, schedules, finishes, cancels, IsOwner, closed_lem,
  Steps-IsOwner, default-IsOwner,
}

module _ {K : Type 0} (dec : Discrete K) where
  module _ (c : PrefetchConfig) where
    -- From the empty owner, after any schedules with any times and purposes, ends of tasks in any
    -- order and cancellations: each key in the set is that of a running task and the other way
    -- round, no key has two tasks, and the set holds at most `max_inflight` keys, the starts are at
    -- most `rate_per_sec`, and the failure table is within its capacity.
    pub history-IsOwner :
        (st : State dec) (tasks : List K)
        → Steps dec c (default dec) [] st tasks
        → IsOwner dec c st tasks
    history-IsOwner st tasks h =
        Steps-IsOwner dec c (default dec) [] st tasks (default-IsOwner dec c) h

    -- A closed owner starts nothing again, whatever is asked of it: no task is added, and it stays
    -- closed.
    pub Steps-closed :
        (st0 : State dec) (tasks0 : List K) (st : State dec) (tasks : List K)
        → st0.closed ≡ true
        → Steps dec c st0 tasks0 st tasks
        → (st.closed ≡ true) × (st.scheduled ≡ st0.scheduled) × (length tasks ≤ length tasks0)
    unfolding schedule finish cancel tidy
    Steps-closed st0 tasks0 _ _ q begin = (q, refl, omega arith)
    Steps-closed st0 tasks0 _ _ q (schedules purpose now none st tasks h) =
        Steps-closed st0 tasks0 st tasks q h
    Steps-closed st0 tasks0 _ _ q (schedules purpose now (some key) st tasks h) =
        let rest = Steps-closed st0 tasks0 st tasks q h in
        subst
          (λ r.
            (r.1.closed ≡ true)
            × (r.1.scheduled ≡ st0.scheduled)
            × (length (spawned dec r.0 tasks) ≤ length tasks0))
          (sym (closed_lem dec c purpose now key (tidy dec now st) (rest.0))) rest
    Steps-closed st0 tasks0 _ _ q (finishes key none now st tasks running h) =
        let (a, b, n) = Steps-closed st0 tasks0 st tasks q h in
        (a, b, omega (arith, length-ended dec key tasks))
    Steps-closed st0 tasks0 _ _ q (finishes key (some true) now st tasks running h) =
        let (a, b, n) = Steps-closed st0 tasks0 st tasks q h in
        (a, b, omega (arith, length-ended dec key tasks))
    Steps-closed st0 tasks0 _ _ q (finishes key (some false) now st tasks running h) =
        let (a, b, n) = Steps-closed st0 tasks0 st tasks q h in
        (a, b, omega (arith, length-ended dec key tasks))
    Steps-closed st0 tasks0 _ _ q (cancels st tasks h) =
        let (a, b, n) = Steps-closed st0 tasks0 st tasks q h in (refl, b, n)
