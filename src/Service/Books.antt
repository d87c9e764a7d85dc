-- ===== src/Service/Books.antt =====
-- Every accepted descriptor is closed or held once, and every integer has one task.
use native.Mathlib.Decide.{ℕ_discrete}
use progetto.Prelude.{
  assign, assign-keeps, status_sum, ℕ, ◌+◌, ◌≡◌, ◌≢◌, ◌∙◌, sym, ap, arith, refl, true, Option, List,
  ◌++◌, count,
}
use progetto.Network.Accept.{store}
use progetto.Service.{Service, Duty, quiet}
use progetto.Service.Counts.{at_work, allocated, arguments, held_by, points, holds}
use progetto.ThreadPool.TaskList.{Ptr}
use progetto.ThreadPool.System.{
  shut_down, cancel, wake, asleep, sleep, create, gone, leave, scale, System, Status, idle, Step,
  add, take, finish,
}
use progetto.ThreadPool.System.Counting.{busy, busy-awaken}

-- `waiting` are the tasks of the queue.
pub record Keeps (n : ℕ) (s : Service) : Type 0 where
  pub waiting : List (ℕ × ℕ)
  pub fifo : s.sys.started ++ waiting ≡ s.sys.added
  pub refs :
      (a : Ptr)
      → count a (arguments waiting) + status_sum (points a) n s.duties ≡ allocated (s.integers a)
  pub fds :
      (fd : ℕ)
      → count fd s.accepted
        ≡ count fd s.closed
          + (held_by fd s.integers (arguments waiting)
              + status_sum (holds fd s.integers) n s.duties)
  pub link : (i : ℕ) → at_work (s.duties i) ≡ busy (s.sys.workers i)

-- What a step of the pool keeps in which no task enters, begins or ends.
pub record Same (s t : System) : Type 0 where
  pub added : t.added ≡ s.added
  pub started : t.started ≡ s.started
  pub busy : (i : ℕ) → busy (t.workers i) ≡ busy (s.workers i)

turn-Same :
    (s : System) (i : ℕ) (st : Status)
    → busy st ≡ busy (s.workers i)
    → Same s (record s { workers = assign s.workers i st })
turn-Same s i st e = record {
  added = refl;
  started = refl;
  busy = assign-keeps busy s.workers i st e;
}

pub quiet-Same :
    {n : ℕ} (s : System) {t : System} (step : Step n s t) → quiet step ≡ true → Same s t
quiet-Same s (add _ _ _ _ _ _) h = absurd cc
quiet-Same s (scale calls) h = record { added = refl; started = refl; busy = λ i. refl }
quiet-Same s (take _ _ _ _) h = absurd cc
quiet-Same s (finish _ _ _ _) h = absurd cc
quiet-Same s (leave i lt e _) h = turn-Same s i gone (ap busy (sym e))
quiet-Same s (create i lt e) h = turn-Same s i idle (ap busy (sym e))
quiet-Same s (sleep i lt e _) h = turn-Same s i asleep (ap busy (sym e))
quiet-Same s (wake i lt e) h = turn-Same s i idle (ap busy (sym e))
quiet-Same s (cancel i lt e) h = turn-Same s i gone (ap busy (sym e))
quiet-Same s shut_down h = record {
  added = refl;
  started = refl;
  busy = λ i. busy-awaken (s.workers i);
}

pub store_self : (integers : Ptr → Option ℕ) (a : Ptr) (v : Option ℕ) → store integers a v a ≡ v
unfolding store
store_self integers a v = ground arith

pub store_other :
    (integers : Ptr → Option ℕ) (a : Ptr) (v : Option ℕ) (b : Ptr)
    → b ≢ a
    → store integers a v b ≡ integers b
unfolding store
store_other integers a v b other = ground arith

module _ (w : ℕ → Status) (d : ℕ → Duty) (link : (j : ℕ) → at_work (d j) ≡ busy (w j)) (i : ℕ) where
  pub link-assign :
      (st : Status) (duty : Duty)
      → at_work duty ≡ busy st
      → (j : ℕ) → at_work (assign d i duty j) ≡ busy (assign w i st j)
  unfolding assign
  link-assign st duty h j = elim (ℕ_discrete j i) [
    | yes here ↦ ground (arith, h)
    | no other ↦ ground (arith, link j)
  ]

  pub link-duty :
      (duty : Duty)
      → at_work duty ≡ at_work (d i)
      → (j : ℕ) → at_work (assign d i duty j) ≡ busy (w j)
  link-duty duty same j = assign-keeps at_work d i duty same j ∙ link j
