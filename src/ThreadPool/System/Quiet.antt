-- ===== src/ThreadPool/System/Quiet.antt =====
-- Steps in which a worker without a task goes to sleep, wakes up, starts or ends.
use progetto.Prelude.{assign, status_sum-assign, true, ℕ, ◌<◌, ◌≡◌, ◌≢◌, arith, inl, inr, ap}
use progetto.ThreadPool.System.{System, Status, running, idle, asleep, gone, awaken}
use progetto.ThreadPool.System.Counting.{busy-awaken, busy, status_sum-awaken}
use progetto.ThreadPool.System.Invariant.{Inv}
use progetto.ThreadPool.System.Rounds.{assign-running}

-- A worker that runs a task after worker `i` got another status than that is another one, and ran
-- it before.
pub assign-still :
    (w : ℕ → Status) (i : ℕ) (st : Status)
    → busy st ≡ 0
    → (j : ℕ) {q g y : ℕ} → assign w i st j ≡ running q g y
    → (j ≢ i) × (w j ≡ running q g y)
assign-still w i st quiet j run = elim (assign-running w i st j run) [
  | inl (at, new) ↦ absurd (let e = ap busy new in omega (arith, e, quiet))
  | inr r ↦ r
]

awaken-running : (st : Status) {q g y : ℕ} → awaken st ≡ running q g y → st ≡ running q g y
awaken-running idle e = e
awaken-running asleep e = absurd cc
awaken-running (running p f x) e = e
awaken-running gone e = e

module _ {n : ℕ} (s : System) (v : Inv n s) where
  open v use {cells, list, size, active, fifo, owned}

  pub quiet-Inv :
      (i : ℕ) (st : Status)
      → i < n
      → busy (s.workers i) ≡ 0
      → busy st ≡ 0
      → Inv n (record s { workers = assign s.workers i st })
  quiet-Inv i st lt before quiet = record {
    cells = cells;
    list = list;
    size = size;
    active = omega (arith, active, status_sum-assign busy n i s.workers st lt, before, quiet);
    fifo = fifo;
    owned = record {
      apart = λ j q g y run. owned.apart j q g y (assign-still s.workers i st quiet j run).1;
      in_use = λ j q g y run. owned.in_use j q g y (assign-still s.workers i st quiet j run).1;
      unshared = λ j l q g y g' y' run run'.
          owned.unshared j l q g y g' y' (assign-still s.workers i st quiet j run).1
            (assign-still s.workers i st quiet l run').1;
    };
  }

  pub awaken-Inv :
      Inv n
        (record s { pool = record s.pool { shutdown = true }; workers = λ i. awaken (s.workers i) })
  awaken-Inv = record {
    cells = cells;
    list = list;
    size = size;
    active = omega (arith, active, status_sum-awaken busy n s.workers busy-awaken);
    fifo = fifo;
    owned = record {
      apart = λ j q g y run. owned.apart j q g y (awaken-running (s.workers j) run);
      in_use = λ j q g y run. owned.in_use j q g y (awaken-running (s.workers j) run);
      unshared = λ j l q g y g' y' run run'.
          owned.unshared j l q g y g' y' (awaken-running (s.workers j) run)
            (awaken-running (s.workers l) run');
    };
  }
