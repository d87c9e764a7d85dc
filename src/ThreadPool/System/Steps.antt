-- ===== src/ThreadPool/System/Steps.antt =====
-- Every step keeps the invariant.
use progetto.Prelude.{
  assign, status_sum-assign, refl, subst, append_assoc, ap, inr, length-append, inl, ◌∙◌, sym,
  arith, some, none, ◌<◌, ℕ, ◌≡◌, ◌≢◌, [], ◌∷◌, ◌++◌,
}
use progetto.ThreadPool.TaskList.{Task, Ptr, Fresh}
use progetto.ThreadPool.System.{
  asleep, gone, idle, System, running, Step, add, scale, take, finish, leave, cancel, create, sleep,
  wake, unheard, wakes, shut_down,
}
use progetto.ThreadPool.System.Invariant.{Fresh-snoc, contents, contents-append, Inv, Owned}
use progetto.ThreadPool.Scale.{auto_scale, ScaleCalls}
use progetto.ThreadPool.Queue.{entered, admit}
use progetto.ThreadPool.Worker.{runs, begin_round, end_round}
use progetto.ThreadPool.State.{ThreadPool}
use progetto.ThreadPool.TaskList.Ends.{
  free_task_other, free_task-IsTaskList, append_task_in_use, append_task-IsTaskList,
  Fresh-of_unused,
}
use progetto.ThreadPool.Scale.Keeping.{auto_scale-SameWork}
use progetto.ThreadPool.System.Counting.{busy}
use progetto.ThreadPool.Metrics.{record_time}
use progetto.ThreadPool.System.Rounds.{admit-entered, assign-running, Takes, begin_round-Takes}
use progetto.ThreadPool.System.Quiet.{awaken-Inv, quiet-Inv, assign-still}

module _ {n : ℕ} (s : System) (v : Inv n s) where
  open v use {cells, list, size, active, fifo, owned}

  module _ (p f x : ℕ) {pool : ThreadPool} (unused : s.pool.tasks.heap p ≡ none) where
    add-Inv :
        admit (some s.pool) (some f) x (some p) ≡ entered pool
        → Inv n (record s { pool = pool; added = s.added ++ (f, x) ∷ [] })
    add-Inv h =
        let fresh =
          Fresh-of_unused s.pool.tasks.heap s.pool.tasks.queue_head cells p list.chain unused in
        let (q, appended, is) = append_task-IsTaskList s.pool.tasks p f x cells list fresh in
        let same = admit-entered s.pool p f x q appended h in
        let e = ap (λ r. r.tasks) same in
        record {
          cells = cells ++ (p, f, x) ∷ [];
          list = rw e is;
          size =
              omega (
                arith,
                ap (λ r. r.queue_size) same,
                size,
                length-append {0} cells ((p, f, x) ∷ []),
              );
          active = ap (λ r. r.active_threads) same ∙ active;
          fifo = rw (contents-append cells p f x) (
              sym (append_assoc s.started (contents cells) ((f, x) ∷ []))
              ∙ ap (λ l. l ++ (f, x) ∷ []) fifo);
          owned = record {
            apart = λ j p' g y run.
                Fresh-snoc p' cells p f x (owned.apart j p' g y run)
                  (λ same. owned.in_use j p' g y run (ap s.pool.tasks.heap (sym same) ∙ unused));
            in_use = λ j p' g y run.
                rw e
                  (append_task_in_use s.pool.tasks p f x p' appended (owned.in_use j p' g y run));
            unshared = owned.unshared;
          };
        }

  scale-Inv : (calls : ScaleCalls) → Inv n (record s { pool = (auto_scale s.pool calls).pool })
  scale-Inv calls =
      let w = auto_scale-SameWork s.pool calls in
      record {
        cells = cells;
        list = rw w.tasks list;
        size = w.queue_size ∙ size;
        active = w.active_threads ∙ active;
        fifo = fifo;
        owned = record {
          apart = owned.apart;
          in_use = λ j p f x run. rw w.tasks (owned.in_use j p f x run);
          unshared = owned.unshared;
        };
      }

  -- A task that runs is not the first one of the queue, and not behind it.
  apart-Takes :
      (i : ℕ) {p : Ptr} {t : Task} {pool : ThreadPool} (k : Takes s.pool cells p t pool) {q g y : ℕ}
      → s.workers i ≡ running q g y
      → Fresh q ((p, t.function, t.argument) ∷ k.rest)
  apart-Takes i {p} {t} k {q} {g} {y} run =
      subst (λ cs. Fresh q cs) k.first (owned.apart i q g y run)

  -- The tasks that run, when worker `i` took the first one of the queue.
  take-Owned :
      (i : ℕ) {p : Ptr} {t : Task} {pool : ThreadPool} (k : Takes s.pool cells p t pool)
      → Owned
          (record s {
            pool = pool;
            workers = assign s.workers i (running p t.function t.argument);
            started = s.started ++ (t.function, t.argument) ∷ [];
          })
          k.rest
  take-Owned i {p} {t} {pool} k = record {
    apart = λ j q g y run. elim (assign-running s.workers i _ j run) [
      | inl (at, new) ↦ (let same : p ≡ q = cc in rw (← same) k.apart)
      | inr (other, old) ↦ (apart-Takes j k old).1
    ];
    in_use = λ j q g y run. elim (assign-running s.workers i _ j run) [
      | inl (at, new) ↦ (let same : p ≡ q = cc in rw (k.heap, ← same) k.in_use)
      | inr (other, old) ↦ rw k.heap (owned.in_use j q g y old)
    ];
    unshared = λ j l q g y g' y' run run'. elim (assign-running s.workers i _ j run) [
      | inl (at, new) ↦ elim (assign-running s.workers i _ l run') [
        | inl (at', new') ↦ at ∙ sym at'
        | inr (other', old') ↦ absurd ((apart-Takes l k old').0 cc)
      ]
      | inr (other, old) ↦ elim (assign-running s.workers i _ l run') [
        | inl (at', new') ↦ absurd ((apart-Takes j k old).0 cc)
        | inr (other', old') ↦ owned.unshared j l q g y g' y' old old'
      ]
    ];
  }

  take-Inv :
      (i : ℕ) {p : Ptr} {t : Task} {pool : ThreadPool}
      → i < n
      → s.workers i ≡ idle
      → begin_round s.pool ≡ runs p t pool
      → Inv n (record s {
        pool = pool;
        workers = assign s.workers i (running p t.function t.argument);
        started = s.started ++ (t.function, t.argument) ∷ [];
      })
  take-Inv i {p} {t} lt e h =
      let k = begin_round-Takes s.pool cells list size h in
      let split = k.first in
      let st = running p t.function t.argument in
      record {
        cells = k.rest;
        list = k.list;
        size = k.size;
        active =
            omega (arith, k.active, active, status_sum-assign busy n i s.workers st lt, ap busy e);
        fifo =
            append_assoc s.started ((t.function, t.argument) ∷ []) (contents k.rest)
            ∙ ap (λ cs. s.started ++ contents cs) (sym split)
            ∙ fifo;
        owned = take-Owned i k;
      }

  finish-Inv :
      (i t : ℕ) {p f x : ℕ}
      → i < n
      → s.workers i ≡ running p f x
      → Inv n (record s { pool = end_round s.pool p t; workers = assign s.workers i idle })
  unfolding end_round record_time
  finish-Inv i t {p} {f} {x} lt e = record {
    cells = cells;
    list = free_task-IsTaskList s.pool.tasks cells p list (owned.apart i p f x e);
    size = size;
    active = omega (arith, active, status_sum-assign busy n i s.workers idle lt, ap busy e);
    fifo = fifo;
    owned = record {
      apart = λ j q g y run. owned.apart j q g y (assign-still s.workers i idle refl j run).1;
      in_use = λ j q g y run.
          let (other, old) = assign-still s.workers i idle refl j run in
          let apart_q : q ≢ p = λ same.
            other (owned.unshared j i q g y f x old (e ∙ ap (λ z. running z f x) (sym same))) in
          rw (free_task_other s.pool.tasks p q apart_q) (owned.in_use j q g y old);
      unshared = λ j l q g y g' y' run run'.
          owned.unshared j l q g y g' y' (assign-still s.workers i idle refl j run).1
            (assign-still s.workers i idle refl l run').1;
    };
  }

  pub Step-Inv : {t : System} → Step n s t → Inv n t
  Step-Inv (add p f x unused h (unheard _)) = add-Inv p f x unused h
  Step-Inv (add p f x unused h (wakes i lt e)) =
      quiet-Inv _ (add-Inv p f x unused h) i idle lt (ap busy e) refl
  Step-Inv (scale calls) = scale-Inv calls
  Step-Inv (take i lt e h) = take-Inv i lt e h
  Step-Inv (finish i t lt e) = finish-Inv i t lt e
  Step-Inv (leave i lt e h) = quiet-Inv s v i gone lt (ap busy e) refl
  Step-Inv (create i lt e) = quiet-Inv s v i idle lt (ap busy e) refl
  Step-Inv (sleep i lt e h) = quiet-Inv s v i asleep lt (ap busy e) refl
  Step-Inv (wake i lt e) = quiet-Inv s v i idle lt (ap busy e) refl
  Step-Inv (cancel i lt e) = quiet-Inv s v i gone lt (ap busy e) refl
  Step-Inv shut_down = awaken-Inv s v
