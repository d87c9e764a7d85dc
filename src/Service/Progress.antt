-- ===== src/Service/Progress.antt =====
-- While a task waits or runs, a worker goes on.
use native.Mathlib.Decide.{ℕ_discrete}
use progetto.ThreadPool.System.Working.{rouse, awake-idle}
use progetto.Prelude.{
  assign_self, status_sum, status_sum-assign, status_sum-cases, ℕ, suc, ◌+◌, ◌*◌, ◌<◌, ◌≡◌, ◌≢◌,
  ◌∙◌, ◌⊎◌, arith, inl, inr, ap, sym, refl, false, length,
}
use progetto.Service.{Service, free, called, Move, Reaches, IsFresh, begin}
use progetto.Service.Advances.{duty_work, duty_work_free, go_on}
use progetto.Service.Counts.{at_work, at_work_free}
use progetto.Service.Moves.{Reaches-Keeps, Reaches-Reach}
use progetto.ThreadPool.System.Flags.{begin_round-waits_open, begin_round-shutdown}
use progetto.ThreadPool.System.{running, idle, gone}
use progetto.ThreadPool.System.Counting.{busy}
use progetto.ThreadPool.System.Order.{Reach-Inv, Reach-Looks, Looks, left, slept, began}
use progetto.ThreadPool.System.Rounds.{begin_round-Takes}
use progetto.ThreadPool.System.Wakeups.{Reach-Alert, empty_queue}

-- The moves that all tasks still need.
abbrev pub service_work : ℕ → Service → ℕ
service_work n s = 4 * s.sys.pool.queue_size + status_sum duty_work n s.duties

-- A worker goes on with a task or begins one.
pub record Proceeds (n : ℕ) (s t : Service) : Type 0 where
  pub move : Move n s t
  pub less : service_work n t + 1 ≡ service_work n s
  pub accepted : t.accepted ≡ s.accepted
  pub shutdown : t.sys.pool.shutdown ≡ s.sys.pool.shutdown
  pub up : (j : ℕ) × (j < n) × (t.sys.workers j ≢ gone)

pub data Serves (n : ℕ) : Service → ℕ → Service → Type 0 where
  rests : {s : Service} → Serves n s 0 s
  proceeds : {k : ℕ} {s t u : Service} → Proceeds n s t → Serves n t k u → Serves n s (suc k) u

module _ (n : ℕ) {start : Service} (s : Service) (is : IsFresh start) (r : Reaches n start s) where
  begin_task :
      (i : ℕ)
      → i < n
      → s.sys.workers i ≡ idle
      → s.sys.pool.shutdown ≡ false
      → 0 < s.sys.pool.queue_size
      → Looks s.sys
      → (t : Service) × Proceeds n s t
  begin_task i lt e open_pool pos (left h _) = absurd cc
  begin_task i lt e open_pool pos (slept _ _ h) = absurd (
      let none_waits =
        empty_queue s.sys (Reach-Inv n is.pool (Reaches-Reach n r))
          (begin_round-waits_open s.sys.pool h).1 in
      omega (arith, none_waits, pos))
  begin_task i lt e open_pool pos (began {p} {t} later _ _ begun _) =
      let v = Reach-Inv n is.pool (Reaches-Reach n r) in
      let k = begin_round-Takes s.sys.pool v.cells v.list v.size begun in
      let was : s.duties i ≡ free =
        at_work_free (s.duties i) ((Reaches-Keeps n is r).link i ∙ ap busy e) in
      (
        _,
        record {
          move = begin i lt e begun;
          less = omega (
            arith,
            k.size,
            v.size,
            ap length k.first,
            status_sum-assign duty_work n i s.duties (called t.argument) lt,
            ap duty_work was,
          );
          accepted = refl;
          shutdown = begin_round-shutdown s.sys.pool begun;
          up = (
            i,
            lt,
            λ g.
                let h = sym (assign_self s.sys.workers i (running p t.function t.argument)) ∙ g in
                cc,
          );
        },
      )

  pub Reaches-Proceeds :
      (i : ℕ)
      → s.sys.pool.shutdown ≡ false
      → i < n
      → s.sys.workers i ≢ gone
      → (service_work n s ≡ 0) ⊎ ((t : Service) × Proceeds n s t)
  Reaches-Proceeds i open_pool lt up =
      let k = Reaches-Keeps n is r in
      let reach = Reaches-Reach n r in
      elim (status_sum-cases duty_work n s.duties) [
        | inr (j, below, pos) ↦
            (let (t, w) = go_on n s is r j below (s.duties j) refl pos in
              inr (
                t,
                record {
                  move = w.move;
                  less = omega (arith, w.less, w.queue);
                  accepted = w.accepted;
                  shutdown = w.shutdown;
                  up = w.up;
                },
              ))
        | inl (rest, zeros) ↦ elim (ℕ_discrete s.sys.pool.queue_size 0) [
          | yes empty ↦ inl (omega (arith, empty, rest))
          | no waiting ↦
              let pos : 0 < s.sys.pool.queue_size = omega (arith, waiting) in
              let (j, below, a) = rouse s.sys (Reach-Alert n is.pool reach) pos i _ refl lt up in
              let rests : busy (s.sys.workers j) ≡ 0 =
                sym (k.link j) ∙ ap at_work (duty_work_free (s.duties j) (zeros j below)) in
              inr (
                begin_task j below (awake-idle (s.sys.workers j) a rests) open_pool pos
                  (Reach-Looks n is.pool reach))
        ]
      ]
