-- ===== src/ThreadPool/System/Working.antt =====
-- While a task waits or runs, a worker takes or finishes one.
use native.Mathlib.Decide.{ℕ_discrete}
use progetto.Prelude.{
  assign_self, status_sum-assign, status_sum-cases, ℕ, suc, ◌+◌, ◌*◌, ◌<◌, ◌≡◌, ◌≢◌, ◌∙◌, ◌⊎◌,
  arith, inl, inr, ap, sym, refl, true, false, length,
}
use progetto.ThreadPool.System.Flags.{begin_round-waits_open, begin_round-shutdown}
use progetto.ThreadPool.System.{
  System, Status, running, idle, asleep, gone, Step, Reach, IsStart, take, finish,
}
use progetto.ThreadPool.System.Counting.{busy}
use progetto.ThreadPool.System.Invariant.{Inv}
use progetto.ThreadPool.System.Order.{Reach-Inv, Reach-Looks, Looks, left, slept, began}
use progetto.ThreadPool.System.Rounds.{begin_round-Takes}
use progetto.ThreadPool.System.Wakeups.{awake, Alert, Reach-Alert, empty_queue}
use progetto.ThreadPool.Worker.{end_round}
use progetto.ThreadPool.Metrics.{record_time}

-- Two steps for each task that waits, and one for each that runs.
abbrev pub work : System → ℕ
work s = 2 * s.pool.queue_size + s.pool.active_threads

-- A worker takes or finishes a task.
pub record Works (n : ℕ) (s t : System) : Type 0 where
  pub step : Step n s t
  pub less : work t + 1 ≡ work s
  pub added : t.added ≡ s.added
  pub shutdown : t.pool.shutdown ≡ s.pool.shutdown
  pub up : (j : ℕ) × (j < n) × (t.workers j ≢ gone)

pub data Drains (n : ℕ) : System → ℕ → System → Type 0 where
  rests : {s : System} → Drains n s 0 s
  works : {k : ℕ} {s t u : System} → Works n s t → Drains n t k u → Drains n s (suc k) u

pub busy-running : (st : Status) → 0 < busy st → (p f x : ℕ) × (st ≡ running p f x)
busy-running idle h = absurd (omega arith)
busy-running asleep h = absurd (omega arith)
busy-running (running p f x) h = (p, f, x, refl)
busy-running gone h = absurd (omega arith)

pub awake-idle : (st : Status) → awake st ≡ true → busy st ≡ 0 → st ≡ idle
awake-idle idle h e = refl
awake-idle asleep h e = absurd cc
awake-idle (running p f x) h e = absurd (omega arith)
awake-idle gone h e = absurd cc

-- Of a worker there is, one is awake while tasks wait.
pub rouse :
    {n : ℕ} (s : System)
    → Alert n s.pool s.workers
    → 0 < s.pool.queue_size
    → (j : ℕ) (st : Status) → s.workers j ≡ st
    → j < n
    → st ≢ gone
    → (i : ℕ) × (i < n) × (awake (s.workers i) ≡ true)
rouse s k pos j idle e lt up = (j, lt, ap awake e)
rouse s k pos j asleep e lt up = k.watched j lt e pos
rouse s k pos j (running p f x) e lt up = (j, lt, ap awake e)
rouse s k pos j gone e lt up = absurd (up refl)

module _ (n : ℕ) (s : System) (v : Inv n s) where
  finish-Works :
      (i : ℕ) {p f x : ℕ} → i < n → s.workers i ≡ running p f x → (t : System) × Works n s t
  unfolding end_round record_time
  finish-Works i {p} {f} {x} lt e = (
    _,
    record {
      step = finish i 0 lt e;
      less = omega (arith, v.active, status_sum-assign busy n i s.workers idle lt, ap busy e);
      added = refl;
      shutdown = refl;
      up = (i, lt, λ g. let h = sym (assign_self s.workers i idle) ∙ g in cc);
    },
  )

  take-Works :
      (i : ℕ)
      → i < n
      → s.workers i ≡ idle
      → s.pool.shutdown ≡ false
      → 0 < s.pool.queue_size
      → Looks s
      → (t : System) × Works n s t
  take-Works i lt e open_pool pos (left h _) = absurd cc
  take-Works i lt e open_pool pos (slept _ _ h) = absurd (
      let none_waits = empty_queue s v (begin_round-waits_open s.pool h).1 in
      omega (arith, none_waits, pos))
  take-Works i lt e open_pool pos (began {p} {t} later _ _ h _) =
      let k = begin_round-Takes s.pool v.cells v.list v.size h in
      (
        _,
        record {
          step = take i lt e h;
          less = omega (arith, k.size, k.active, v.size, ap length k.first);
          added = refl;
          shutdown = begin_round-shutdown s.pool h;
          up = (
            i,
            lt,
            λ g. let r = sym (assign_self s.workers i (running p t.function t.argument)) ∙ g in cc,
          );
        },
      )

-- While work is left in a reachable state of a pool that serves and has a worker, some worker takes
-- or finishes a task in the next step; no sleeper has to wake for it.
pub Reach-Works :
    (n : ℕ) {start s : System} (i : ℕ)
    → IsStart start
    → Reach n start s
    → s.pool.shutdown ≡ false
    → i < n
    → s.workers i ≢ gone
    → (work s ≡ 0) ⊎ ((t : System) × Works n s t)
Reach-Works n {s = s} i is r open_pool lt up =
    let v = Reach-Inv n is r in
    elim (status_sum-cases busy n s.workers) [
      | inr (j, below, pos) ↦
          inr (let (p, f, x, e) = busy-running (s.workers j) pos in finish-Works n s v j below e)
      | inl (rest, zeros) ↦ elim (ℕ_discrete s.pool.queue_size 0) [
        | yes empty ↦ inl (omega (arith, empty, v.active, rest))
        | no waiting ↦
            let pos : 0 < s.pool.queue_size = omega (arith, waiting) in
            let (j, below, a) = rouse s (Reach-Alert n is r) pos i _ refl lt up in
            inr (
              take-Works n s v j below (awake-idle (s.workers j) a (zeros j below)) open_pool pos
                (Reach-Looks n is r))
      ]
    ]
