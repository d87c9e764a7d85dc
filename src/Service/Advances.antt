-- ===== src/Service/Advances.antt =====
-- A worker goes on with its task: it reads the descriptor, serves and closes, and returns.
use progetto.ThreadPool.System.Working.{busy-running}
use progetto.Prelude.{
  assign_self, status_sum, status_sum-assign, ℕ, ◌+◌, ◌<◌, ◌≡◌, ◌≢◌, ◌∙◌, arith, ap, sym, refl,
}
use progetto.Service.{
  Service, Duty, free, called, serving, returned, Move, Reaches, IsFresh, read_fd, close_fd,
  end_task,
}
use progetto.Service.Counts.{at_work}
use progetto.Service.Moves.{Reaches-Keeps}
use progetto.Service.Descriptors.{Reaches-reads}
use progetto.ThreadPool.System.{asleep, Status, running, idle, gone}
use progetto.ThreadPool.System.Counting.{busy}
use progetto.ThreadPool.Worker.{end_round}
use progetto.ThreadPool.Metrics.{record_time}

-- The moves that a worker still makes with its task.
abbrev pub duty_work : Duty → ℕ
duty_work free = 0
duty_work (called a) = 3
duty_work (serving fd) = 2
duty_work returned = 1

-- Whether a worker is there.
abbrev pub alive : Status → ℕ
alive idle = 1
alive asleep = 1
alive (running p f x) = 1
alive gone = 0

-- A worker goes on with its task.
pub record Advances (n : ℕ) (s t : Service) : Type 0 where
  pub move : Move n s t
  pub less : status_sum duty_work n t.duties + 1 ≡ status_sum duty_work n s.duties
  pub queue : t.sys.pool.queue_size ≡ s.sys.pool.queue_size
  pub staff : status_sum alive n t.sys.workers ≡ status_sum alive n s.sys.workers
  pub accepted : t.accepted ≡ s.accepted
  pub started : t.sys.started ≡ s.sys.started
  pub shutdown : t.sys.pool.shutdown ≡ s.sys.pool.shutdown
  pub up : (j : ℕ) × (j < n) × (t.sys.workers j ≢ gone)

busy-up : (st : Status) → 0 < busy st → st ≢ gone
busy-up st pos e = let f = ap busy e in omega (arith, f, pos)

pub duty_work_free : (d : Duty) → duty_work d ≡ 0 → d ≡ free
duty_work_free free e = refl
duty_work_free (called a) e = absurd (omega arith)
duty_work_free (serving fd) e = absurd (omega arith)
duty_work_free returned e = absurd (omega arith)

module _ (n : ℕ) {start : Service} (s : Service) (is : IsFresh start) (r : Reaches n start s) where
  pub go_on :
      (i : ℕ)
      → i < n
      → (d : Duty) → s.duties i ≡ d
      → 0 < duty_work d
      → (t : Service) × Advances n s t
  unfolding end_round record_time
  go_on i lt free e pos = absurd (omega arith)
  go_on i lt (called x) e pos =
      let (fd, after, reads, _, _, _) = Reaches-reads n i is r lt e in
      let k = Reaches-Keeps n is r in
      (
        _,
        record {
          move = read_fd i lt e reads;
          less =
              omega
                (arith, status_sum-assign duty_work n i s.duties (serving fd) lt, ap duty_work e);
          queue = refl;
          staff = refl;
          accepted = refl;
          started = refl;
          shutdown = refl;
          up = (i, lt, busy-up (s.sys.workers i) (omega (arith, k.link i, ap at_work e)));
        },
      )
  go_on i lt (serving fd) e pos =
      let k = Reaches-Keeps n is r in
      (
        _,
        record {
          move = close_fd i lt e;
          less =
              omega (arith, status_sum-assign duty_work n i s.duties returned lt, ap duty_work e);
          queue = refl;
          staff = refl;
          accepted = refl;
          started = refl;
          shutdown = refl;
          up = (i, lt, busy-up (s.sys.workers i) (omega (arith, k.link i, ap at_work e)));
        },
      )
  go_on i lt returned e pos =
      let k = Reaches-Keeps n is r in
      let (p, f, x, run) = busy-running (s.sys.workers i) (omega (arith, k.link i, ap at_work e)) in
      (
        _,
        record {
          move = end_task i 0 lt run e;
          less = omega (arith, status_sum-assign duty_work n i s.duties free lt, ap duty_work e);
          queue = refl;
          staff = omega (arith, status_sum-assign alive n i s.sys.workers idle lt, ap alive run);
          accepted = refl;
          started = refl;
          shutdown = refl;
          up = (i, lt, λ g. let h = sym (assign_self s.sys.workers i idle) ∙ g in cc);
        },
      )
