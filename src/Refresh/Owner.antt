-- ===== src/Refresh/Owner.antt =====
-- resolver/refresh.rs: `Refresh` with its state. A key is the canonical work key with the epoch; the
-- task set is not part of the state, and what a task holds is its `Completion`.
use pari_ns.Prelude.{
  ℕ, ◌+◌, ◌-◌, ◌*◌, min, max, ite, Bool, true, false, ◌||◌, Option, none, some, List, [], ◌∷◌, ◌++◌,
  ltb, leb, if◌then◌else◌, length, count,
}
use pari_ns.Prelude.Assoc.{lookup, insert, remove}
use pari_ns.Sharing.Samples.{retain}

pub data Purpose : Type 0 where
  prefetch fill : Purpose

pub record PrefetchConfig : Type 0 where
  pub max_inflight : ℕ
  pub rate_per_sec : ℕ
  pub backoff_secs : ℕ

abbrev second : ℕ
second = 1000000000

abbrev usize_max : ℕ
usize_max = 0xffff_ffff_ffff_ffff

-- The bound of the failure table.
unfoldable pub capacity_of : PrefetchConfig → ℕ
capacity_of c = max 64 (min 4096 (min usize_max (c.max_inflight * 8)))

unfoldable pub pop_starts : ℕ → List ℕ → List ℕ
pop_starts now [] = []
pop_starts now (start ∷ starts) =
    if leb second (now - start) then pop_starts now starts else start ∷ starts

module _ {K : Type 0} (dec : Discrete K) where
  pub record State : Type 0 where
    pub closed : Bool
    pub active : List K
    pub cooldown : List (K × ℕ)
    pub starts : List ℕ
    pub scheduled : ℕ
    pub success : ℕ
    pub failure : ℕ
    pub rejected_duplicate : ℕ
    pub rejected_cooldown : ℕ
    pub rejected_budget : ℕ
    pub cancelled_fill_rejected : ℕ

  abbrev pub default : State
  default = record {
    closed = false;
    active = [];
    cooldown = [];
    starts = [];
    scheduled = 0;
    success = 0;
    failure = 0;
    rejected_duplicate = 0;
    rejected_cooldown = 0;
    rejected_budget = 0;
    cancelled_fill_rejected = 0;
  }

  pub record Completion : Type 0 where
    pub key : K
    pub backoff : ℕ
    pub capacity : ℕ

  pub data Rejection : Type 0 where
    duplicate cooling budget : Rejection

  abbrev pub is_active : K → State → Bool
  is_active key st = ltb 0 (count dec key st.active)

  abbrev is_cooling : K → State → Bool
  is_cooling key st = elim (lookup dec key st.cooldown) [ none ↦ false | some until ↦ true ]

  -- The failures and the starts that time has passed are forgotten.
  unfoldable pub tidy : ℕ → State → State
  tidy now st = record st {
    cooldown = retain (λ (q : K × ℕ). ltb now q.1) st.cooldown;
    starts = pop_starts now st.starts;
  }

  unfoldable pub rejection : PrefetchConfig → K → State → Option Rejection
  rejection c key st =
      if is_active key st
      then some duplicate
      else if is_cooling key st
      then some cooling
      else if leb c.max_inflight (length st.active) || leb c.rate_per_sec (length st.starts)
      then some budget
      else none

  unfoldable pub count_rejection : Purpose → Rejection → State → State
  count_rejection fill reason st = record st {
    cancelled_fill_rejected = st.cancelled_fill_rejected + 1;
  }
  count_rejection prefetch duplicate st = record st {
    rejected_duplicate = st.rejected_duplicate + 1;
  }
  count_rejection prefetch cooling st = record st { rejected_cooldown = st.rejected_cooldown + 1 }
  count_rejection prefetch budget st = record st { rejected_budget = st.rejected_budget + 1 }

  abbrev pub completion : PrefetchConfig → K → Completion
  completion c key = record {
    key = key;
    backoff = c.backoff_secs * second;
    capacity = capacity_of c;
  }

  unfoldable pub start : ℕ → K → State → State
  start now key st = record st {
    active = key ∷ st.active;
    starts = st.starts ++ now ∷ [];
    scheduled = st.scheduled + 1;
  }

  -- Under the lock, once the state is tidy.
  unfoldable pub decide : PrefetchConfig → Purpose → ℕ → K → State → Option Completion × State
  decide c purpose now key st = if st.closed then (none, st) else elim (rejection c key st) [
    | some reason ↦ (none, count_rejection purpose reason st)
    | none ↦ (some (completion c key), start now key st)
  ]

  -- `Refresh::schedule`; the work that is spawned holds the completion.
  unfoldable pub schedule :
      PrefetchConfig → Purpose → ℕ → Option K → State → Option Completion × State
  schedule c purpose now none st = (none, st)
  schedule c purpose now (some key) st = decide c purpose now key (tidy now st)

  -- `Refresh::cancel`, and `shutdown` before it waits; every task is aborted.
  unfoldable pub cancel : State → State
  cancel st = record st { closed = true }

  -- The failure that ends first; of equal ones the first in the order of the map.
  unfoldable pub first_until : K × ℕ → List (K × ℕ) → K × ℕ
  first_until best [] = best
  first_until best (q ∷ qs) = first_until (if ltb q.1 best.1 then q else best) qs

  unfoldable pub make_room : ℕ → List (K × ℕ) → List (K × ℕ)
  make_room capacity [] = []
  make_room capacity (q ∷ qs) =
      if leb capacity (length (q ∷ qs)) then remove dec (first_until q qs).0 (q ∷ qs) else q ∷ qs

  -- `HashSet::remove`.
  unfoldable pub without : K → List K → List K
  without key [] = []
  without key (k ∷ ks) = ite (dec k key) (without key ks) (k ∷ without key ks)

  -- `Completion::drop`; the work ended with a result, or was aborted.
  unfoldable pub finish : Completion → Option Bool → ℕ → State → State
  finish done none now st = record st { active = without done.key st.active }
  finish done (some true) now st = record st {
    active = without done.key st.active;
    success = st.success + 1;
  }
  finish done (some false) now st = record st {
    active = without done.key st.active;
    failure = st.failure + 1;
    cooldown =
        if st.closed
        then st.cooldown
        else insert dec done.key (now + done.backoff) (make_room done.capacity st.cooldown);
  }
