-- ===== src/Flight.antt =====
-- flight.rs: requests for the same answer share one piece of work. The calls of threads interleave
-- at the lock, at each atomic step on a counter, and at each drop of a reference.
pub mod Works
pub mod Moves
pub mod History
pub mod Single
use pari_ns.Prelude.{
  ℕ, zero, suc, ◌+◌, ◌-◌, ◌%◌, ◌^◌, Bool, true, false, not, ◌&&◌, Option, none, some, List, [], ◌∷◌,
  ltb, leb, ◌==◌, if◌then◌else◌, length, ◌≡◌, ◌<◌,
}
use pari_ns.Prelude.Assoc.{lookup, insert}

pub record CoalescingConfig : Type 0 where
  pub enabled : Bool
  pub max_groups : ℕ
  pub max_waiters : ℕ

-- A `Shared` work with its counter of holds. Its references are those of the holds that are
-- counted, of the holds that are no longer counted but not yet gone, and of a caller that has
-- upgraded the registry's reference. `is_done` is `peek`.
pub record Work (K : Type 0) : Type 0 where
  pub key : Option K
  pub holds : ℕ
  pub held : ℕ
  pub leaving : ℕ
  pub upgraded : ℕ
  pub is_done : Bool

-- Where a call of `join` is that has the lock.
pub data Stage (K : Type 0) : Type 0 where
  unlocked : Stage K
  reaped : K → Stage K
  joining : ℕ → Stage K

-- The registry, and the works by their number; `next` is the number of the next one.
pub record Flights (K : Type 0) : Type 0 where
  pub groups : List (K × ℕ)
  pub lock : Stage K
  pub works : ℕ → Work K
  pub next : ℕ

abbrev usize_range : ℕ
usize_range = 2 ^ 64

module _ {K : Type 0} where
  -- Whether `upgrade` finds a reference.
  abbrev pub is_alive : Work K → Bool
  is_alive x = ltb 0 (x.held + x.leaving + x.upgraded)

  abbrev pub new_work : Option K → Work K
  new_work key = record {
    key = key;
    holds = 0;
    held = 0;
    leaving = 0;
    upgraded = 0;
    is_done = false;
  }

  unfoldable pub set_work : ℕ → Work K → (ℕ → Work K) → ℕ → Work K
  set_work w x works v = if v == w then x else works v

  -- `Hold::new`.
  unfoldable pub new_hold : Work K → Work K
  new_hold x = record x { holds = (x.holds + 1) % usize_range; held = x.held + 1 }

  -- `Hold::leave`: the work, and whether this hold was the last and is returned.
  unfoldable pub leave : Work K → Work K × Bool
  leave x =
      if ltb 1 x.holds
      then (record x { holds = x.holds - 1; held = x.held - 1; leaving = x.leaving + 1 }, false)
      else (x, true)

  -- `Hold::drop`; the reference goes after it.
  unfoldable pub drop_hold : Work K → Work K
  drop_hold x = record x {
    holds = (x.holds + usize_range - 1) % usize_range;
    held = x.held - 1;
    leaving = x.leaving + 1;
  }

  unfoldable pub live_groups : (ℕ → Work K) → List (K × ℕ) → List (K × ℕ)
  live_groups works [] = []
  live_groups works ((k, w) ∷ groups) =
      let rest = live_groups works groups in
      if is_alive (works w) && not (works w).is_done then (k, w) ∷ rest else rest

  abbrev pub put : ℕ → Work K → Flights K → Flights K
  put w x st = record st { works = set_work w x st.works }

  -- A request that is not shared.
  unfoldable pub bypass : Flights K → Flights K
  bypass st = record (put st.next (new_hold (new_work none)) st) { next = st.next + 1 }

  -- `Flights::join` takes the lock and drops the dead entries.
  unfoldable pub reap : K → Flights K → Flights K
  reap k st = record st { lock = reaped k; groups = live_groups st.works st.groups }

  -- `Flights::new`.
  abbrev pub new_flights : Flights K
  new_flights = record { groups = []; lock = unlocked; works = λ w. new_work none; next = 0 }

module _ {K : Type 0} (dec : Discrete K) (c : CoalescingConfig) where
  abbrev unlock : Flights K → Flights K
  unlock st = record st { lock = unlocked }

  -- A new group, or the refusal of one.
  unfoldable pub lead : K → Flights K → Flights K
  lead k st =
      if leb c.max_groups (length st.groups)
      then unlock st
      else record (put st.next (new_hold (new_work (some k))) st) {
        groups = insert dec k st.next st.groups;
        next = st.next + 1;
        lock = unlocked;
      }

  -- The registry's reference is upgraded where there is one.
  unfoldable pub find_group : K → Flights K → Flights K
  find_group k st = elim (lookup dec k st.groups) [
    | none ↦ lead k st
    | some w ↦
        if is_alive (st.works w)
        then record (put w (record (st.works w) { upgraded = (st.works w).upgraded + 1 }) st) {
          lock = joining w;
        }
        else lead k st
  ]

  -- A hold on the group's work, or the refusal of one; the reference passes to the hold.
  unfoldable pub join_group : ℕ → Flights K → Flights K
  join_group w st =
      let x : Work K = record (st.works w) { upgraded = (st.works w).upgraded - 1 } in
      unlock (if leb c.max_waiters (st.works w).holds then put w x st else put w (new_hold x) st)

  -- One step of any thread.
  pub data Step (st : Flights K) : Flights K → Type 0 where
    bypasses : Step st (bypass st)
    locks : (k : K) → st.lock ≡ unlocked → c.enabled ≡ true → Step st (reap k st)
    finds : (k : K) → st.lock ≡ reaped k → Step st (find_group k st)
    joins : (w : ℕ) → st.lock ≡ joining w → Step st (join_group w st)
    leaves : (w : ℕ) → 0 < (st.works w).held → Step st (put w (leave (st.works w)).0 st)
    drops : (w : ℕ) → 0 < (st.works w).held → Step st (put w (drop_hold (st.works w)) st)
    goes :
        (w : ℕ)
        → 0 < (st.works w).leaving
        → Step st (put w (record (st.works w) { leaving = (st.works w).leaving - 1 }) st)
    ends :
        (w : ℕ)
        → is_alive (st.works w) ≡ true
        → Step st (put w (record (st.works w) { is_done = true }) st)

  pub data Steps (st : Flights K) : Flights K → Type 0 where
    stop : Steps st st
    next_step : {t u : Flights K} → Steps st t → Step t u → Steps st u
