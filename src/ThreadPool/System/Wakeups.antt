-- ===== src/ThreadPool/System/Wakeups.antt =====
-- No wake-up of `queue_cond` is lost.
use native.Mathlib.Decide.{ℕ_discrete}
use progetto.Prelude.{
  assign, assign_other, assign_self, [], ◌∷◌, length, ℕ, ◌<◌, ◌≡◌, ◌≢◌, ◌∙◌, ◌⊎◌, arith, inl, inr,
  ap, sym, refl, true, false, Bool, none,
}
use progetto.ThreadPool.System.{
  System, Status, running, idle, asleep, gone, awaken, Step, Reach, IsStart, add, scale, take,
  finish, leave, create, sleep, wake, cancel, shut_down, unheard, wakes, Signalled, goes, stays,
}
use progetto.ThreadPool.System.Invariant.{Inv}
use progetto.ThreadPool.System.Order.{Reach-Inv}
use progetto.ThreadPool.Worker.{end_round}
use progetto.ThreadPool.Metrics.{record_time}
use progetto.ThreadPool.State.{ThreadPool}
use progetto.ThreadPool.Scale.Keeping.{auto_scale-SameWork}
use progetto.ThreadPool.TaskList.{Chain, Cells}
use progetto.ThreadPool.System.Flags.{
  begin_round-waits_open, begin_round-leaves_closed, begin_round-shutdown, admit-open,
}

-- A worker that runs a task or is going to look at the queue.
abbrev pub awake : Status → Bool
awake idle = true
awake asleep = false
awake (running p f x) = true
awake gone = false

-- If a worker sleeps, the pool does not shut down, and while tasks wait another worker is awake.
pub record Alert (n : ℕ) (pool : ThreadPool) (w : ℕ → Status) : Type 0 where
  pub serving : (i : ℕ) → i < n → w i ≡ asleep → pool.shutdown ≡ false
  pub watched :
      (i : ℕ)
      → i < n
      → w i ≡ asleep
      → 0 < pool.queue_size
      → (j : ℕ) × (j < n) × (awake (w j) ≡ true)

-- A worker that sleeps, when worker `i` got another status, is worker `i` or slept before.
assign-asleep :
    (w : ℕ → Status) (i : ℕ) (st : Status) (j : ℕ)
    → assign w i st j ≡ asleep
    → (st ≡ asleep) ⊎ ((j ≢ i) × (w j ≡ asleep))
unfolding assign
assign-asleep w i st j e = elim (ℕ_discrete j i) [
  | yes same ↦ inl (ground arith)
  | no other ↦ inr (other, ground arith)
]

module _ {n : ℕ} (w : ℕ → Status) (i : ℕ) (lt : i < n) where
  -- Worker `i` is awake now.
  now_awake : (st : Status) → awake st ≡ true → (j : ℕ) × (j < n) × (awake (assign w i st j) ≡ true)
  now_awake st e = (i, lt, ap awake (assign_self w i st) ∙ e)

  -- Worker `i` was not the one awake.
  still_awake :
      (st : Status)
      → awake (w i) ≡ false
      → (j : ℕ) × (j < n) × (awake (w j) ≡ true)
      → (j : ℕ) × (j < n) × (awake (assign w i st j) ≡ true)
  still_awake st e (j, below, a) = (
    j,
    below,
    ap awake (assign_other w i st j (λ same. let f = ap (λ k. awake (w k)) same in cc)) ∙ a,
  )

module _ {n : ℕ} {pool : ThreadPool} {w : ℕ → Status} (k : Alert n pool w) where
  -- Worker `i` becomes awake, in a pool that shuts down if this one does.
  rise-Alert :
      (pool' : ThreadPool) (i : ℕ) (st : Status)
      → i < n
      → awake st ≡ true
      → pool'.shutdown ≡ pool.shutdown
      → Alert n pool' (assign w i st)
  rise-Alert pool' i st lt a same = record {
    serving = λ j below e. elim (assign-asleep w i st j e) [
      | inl slept ↦ absurd (let f = ap awake slept in cc)
      | inr (other, slept) ↦ same ∙ k.serving j below slept
    ];
    watched = λ j below e pos. now_awake w i lt st a;
  }

  -- Worker `i` sleeps, and no task waits.
  sleep-Alert :
      (i : ℕ)
      → i < n
      → pool.shutdown ≡ false
      → pool.queue_size ≡ 0
      → Alert n pool (assign w i asleep)
  sleep-Alert i lt open_pool empty = record {
    serving = λ j below e. open_pool;
    watched = λ j below e pos. absurd (omega (arith, pos, empty));
  }

  -- Worker `i`, which slept, ends.
  cancel-Alert : (i : ℕ) → i < n → w i ≡ asleep → Alert n pool (assign w i gone)
  cancel-Alert i lt was = record {
    serving = λ j below e. elim (assign-asleep w i gone j e) [
      | inl slept ↦ cc
      | inr (other, slept) ↦ k.serving j below slept
    ];
    watched = λ j below e pos. elim (assign-asleep w i gone j e) [
      | inl slept ↦ cc
      | inr (other, slept) ↦ still_awake w i lt gone (ap awake was) (k.watched j below slept pos)
    ];
  }

  leave-Alert : (i : ℕ) → i < n → pool.shutdown ≡ true → Alert n pool (assign w i gone)
  leave-Alert i lt closed = record {
    serving = λ j below e. elim (assign-asleep w i gone j e) [
      | inl slept ↦ cc
      | inr (other, slept) ↦ k.serving j below slept
    ];
    watched = λ j below e pos. elim (assign-asleep w i gone j e) [
      | inl slept ↦ cc
      | inr (other, slept) ↦ absurd (let f = k.serving j below slept in cc)
    ];
  }

  -- A task enters a pool that serves.
  add-Alert :
      (pool' : ThreadPool) {w' : ℕ → Status}
      → pool'.shutdown ≡ false
      → Signalled n w w'
      → Alert n pool' w'
  add-Alert pool' open_pool (unheard none_sleeps) = record {
    serving = λ j below e. open_pool;
    watched = λ j below e pos. absurd (none_sleeps j below e);
  }
  add-Alert pool' open_pool (wakes i lt e) = record {
    serving = λ j below e. open_pool;
    watched = λ j below e pos. now_awake w i lt idle refl;
  }

awaken_awake : (st : Status) → awaken st ≢ asleep
awaken_awake idle e = cc
awaken_awake asleep e = cc
awaken_awake (running p f x) e = cc
awaken_awake gone e = cc

pub empty_queue :
    {n : ℕ} (s : System) → Inv n s → s.pool.tasks.queue_head ≡ none → s.pool.queue_size ≡ 0
empty_queue s v e = size_of v.cells v.list.chain v.size
  where
    size_of :
        (cs : Cells)
        → Chain s.pool.tasks.heap s.pool.tasks.queue_head cs
        → s.pool.queue_size ≡ length cs
        → s.pool.queue_size ≡ 0
    size_of [] chain size = size
    size_of (c ∷ cs) chain size = absurd (let f = sym e ∙ chain.0 in cc)

Step-Alert :
    {n : ℕ} (s : System) {t : System}
    → Inv n s
    → Alert n s.pool s.workers
    → Step n s t
    → Alert n t.pool t.workers
unfolding end_round record_time
Step-Alert s v k (add p f x unused h woken) = add-Alert k _ (admit-open s.pool p f x h) woken
Step-Alert s v k (scale calls) =
    let w = auto_scale-SameWork s.pool calls in
    record {
      serving = λ i lt e. w.shutdown ∙ k.serving i lt e;
      watched = λ i lt e pos. k.watched i lt e (omega (arith, w.queue_size, pos));
    }
Step-Alert s v k (take i {pool = pool} lt e h) =
    rise-Alert k pool i _ lt refl (begin_round-shutdown s.pool h)
Step-Alert s v k (finish i t lt e) = rise-Alert k _ i idle lt refl refl
Step-Alert s v k (leave i lt e h) = leave-Alert k i lt (begin_round-leaves_closed s.pool h)
Step-Alert s v k (create i lt e) = rise-Alert k _ i idle lt refl refl
Step-Alert s v k (sleep i lt e h) =
    let (open_pool, empty) = begin_round-waits_open s.pool h in
    sleep-Alert k i lt open_pool (empty_queue s v empty)
Step-Alert s v k (wake i lt e) = rise-Alert k _ i idle lt refl refl
Step-Alert s v k (cancel i lt e) = cancel-Alert k i lt e
Step-Alert s v k shut_down = record {
  serving = λ i lt e. absurd (awaken_awake (s.workers i) e);
  watched = λ i lt e pos. absurd (awaken_awake (s.workers i) e);
}

IsStart-Alert : (n : ℕ) (s : System) → IsStart s → Alert n s.pool s.workers
IsStart-Alert n s is = record {
  serving = λ i lt e. absurd (up i e);
  watched = λ i lt e pos. absurd (up i e);
}
  where
    up : (i : ℕ) → s.workers i ≢ asleep
    up i e = elim (is.resting i) [ inl r ↦ cc | inr r ↦ cc ]

-- After any interleaving, while tasks wait and a worker sleeps, another worker is awake: it runs a
-- task or is going to look at the queue. No worker sleeps in a pool that shuts down.
pub Reach-Alert :
    (n : ℕ) {start s : System} → IsStart start → Reach n start s → Alert n s.pool s.workers
Reach-Alert n {start} is stays = IsStart-Alert n start is
Reach-Alert n is (goes {s = s} r step) = Step-Alert s (Reach-Inv n is r) (Reach-Alert n is r) step
