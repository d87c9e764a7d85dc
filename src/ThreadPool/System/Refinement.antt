-- ===== src/ThreadPool/System/Refinement.antt =====
-- The pool implements a queue of jobs that is served in order.
use mathlib.Core.List.{append_cancel_left}
use progetto.ThreadPool.System.Flags.{
  admit-open, begin_round-shutdown, admit-serves, begin_round-serves,
}
use progetto.Prelude.{
  assign, assign-map, assign-keeps, append_assoc, inr, inl, not, ℕ, Option, none, some, List, [],
  ◌∷◌, ◌++◌, ◌≡◌, ◌∙◌, sym, ap, refl, Bool, true, false,
}
use progetto.ThreadPool.System.{
  wakes, unheard, Signalled, System, Status, idle, asleep, running, gone, awaken, Step, Reach,
  IsStart, add, scale, take, finish, leave, create, sleep, wake, cancel, shut_down, goes, stays,
}
use progetto.ThreadPool.System.Invariant.{Inv, contents}
use progetto.ThreadPool.System.Order.{Reach-Inv}
use progetto.ThreadPool.Worker.{runs, end_round, begin_round}
use progetto.ThreadPool.TaskList.{Task, Ptr}
use progetto.ThreadPool.Metrics.{record_time}
use progetto.ThreadPool.State.{ThreadPool}
use progetto.ThreadPool.Scale.Keeping.{auto_scale-SameWork}
use progetto.ThreadPool.System.Rounds.{begin_round-Takes}

-- What the pool promises: jobs that wait, first come first served, the job that each worker runs,
-- and whether jobs are taken on. No address, no task structure, no lock, no sleeping thread.
pub record Jobs : Type 0 where
  pub waiting : List (ℕ × ℕ)
  pub at_work : ℕ → Option (ℕ × ℕ)
  pub serving : Bool

-- What the service may do.
pub data Act (a : Jobs) : Jobs → Type 0 where
  submit : (job : ℕ × ℕ) → a.serving ≡ true → Act a (record a { waiting = a.waiting ++ job ∷ [] })
  start :
      (i : ℕ) (job : ℕ × ℕ) (later : List (ℕ × ℕ))
      → a.serving ≡ true
      → a.waiting ≡ job ∷ later
      → a.at_work i ≡ none
      → Act a (record a { waiting = later; at_work = assign a.at_work i (some job) })
  complete :
      (i : ℕ) (job : ℕ × ℕ)
      → a.at_work i ≡ some job
      → Act a (record a { at_work = assign a.at_work i none })
  stop : Act a (record a { serving = false })
  nothing_seen : Act a a

abbrev pub job_of : Status → Option (ℕ × ℕ)
job_of idle = none
job_of asleep = none
job_of (running p f x) = some (f, x)
job_of gone = none

-- The jobs that a state of the pool stands for.
pub record Stands (s : System) (a : Jobs) : Type 0 where
  pub waiting : s.started ++ a.waiting ≡ s.added
  pub at_work : (i : ℕ) → a.at_work i ≡ job_of (s.workers i)
  pub serving : a.serving ≡ not s.pool.shutdown

job_of-awaken : (st : Status) → job_of (awaken st) ≡ job_of st
job_of-awaken idle = refl
job_of-awaken asleep = refl
job_of-awaken (running p f x) = refl
job_of-awaken gone = refl

module _ (s : System) (a : Jobs) (st : Stands s a) where
  open st use {waiting, at_work, serving}

  -- A worker without a job gets another status without a job.
  unseen :
      (i : ℕ) (status : Status)
      → job_of status ≡ job_of (s.workers i)
      → (b : Jobs) × Stands (record s { workers = assign s.workers i status }) b × Act a b
  unseen i status e = (
    a,
    record {
      waiting = waiting;
      at_work = λ j. at_work j ∙ sym (assign-keeps job_of s.workers i status e j);
      serving = serving;
    },
    nothing_seen,
  )

  at_work-Signalled :
      {n : ℕ} {w : ℕ → Status} → Signalled n s.workers w → (i : ℕ) → a.at_work i ≡ job_of (w i)
  at_work-Signalled (unheard _) i = at_work i
  at_work-Signalled (wakes j lt e) i =
      at_work i ∙ sym (assign-keeps job_of s.workers j idle (ap job_of (sym e)) i)

  take-Act :
      {n : ℕ} (v : Inv n s) (i : ℕ) {p : Ptr} {t : Task} {pool : ThreadPool}
      → s.workers i ≡ idle
      → begin_round s.pool ≡ runs p t pool
      → (b : Jobs) × Stands
          (record s {
            pool = pool;
            workers = assign s.workers i (running p t.function t.argument);
            started = s.started ++ (t.function, t.argument) ∷ [];
          })
          b
        × Act a b
  take-Act v i {p} {t} e h =
      let k = begin_round-Takes s.pool v.cells v.list v.size h in
      let job : ℕ × ℕ = (t.function, t.argument) in
      let first : a.waiting ≡ job ∷ contents k.rest =
        append_cancel_left s.started _ _ (waiting ∙ sym v.fifo) ∙ ap contents k.first in
      let open_pool = begin_round-serves s.pool h in
      let serves : a.serving ≡ true = serving ∙ ap not open_pool in
      (
        record a { waiting = contents k.rest; at_work = assign a.at_work i (some job) },
        record {
          waiting =
              append_assoc s.started (job ∷ []) _ ∙ ap (λ l. s.started ++ l) (sym first) ∙ waiting;
          at_work =
              assign-map job_of s.workers a.at_work i (running p t.function t.argument) at_work;
          serving = serving ∙ ap not (sym (begin_round-shutdown s.pool h));
        },
        start i job (contents k.rest) serves first (at_work i ∙ ap job_of e),
      )

-- Each step of the pool is an act of the service of jobs, or is not seen there.
pub Step-Act :
    {n : ℕ} (s : System) {t : System} (a : Jobs)
    → Inv n s
    → Stands s a
    → Step n s t
    → (b : Jobs) × Stands t b × Act a b
unfolding end_round record_time
Step-Act s a v st (add p f x unused h woken) =
    let serves : a.serving ≡ true = st.serving ∙ ap not (admit-serves s.pool p f x h) in
    (
      record a { waiting = a.waiting ++ (f, x) ∷ [] },
      record {
        waiting =
            sym (append_assoc s.started a.waiting ((f, x) ∷ []))
            ∙ ap (λ l. l ++ (f, x) ∷ []) st.waiting;
        at_work = at_work-Signalled s a st woken;
        serving = serves ∙ ap not (sym (admit-open s.pool p f x h));
      },
      submit (f, x) serves,
    )
Step-Act s a v st (scale calls) = (
  a,
  record {
    waiting = st.waiting;
    at_work = st.at_work;
    serving = st.serving ∙ ap not (sym (auto_scale-SameWork s.pool calls).shutdown);
  },
  nothing_seen,
)
Step-Act s a v st (take i lt e h) = take-Act s a st v i e h
Step-Act s a v st (finish i t {f = f} {x = x} lt e) = (
  record a { at_work = assign a.at_work i none },
  record {
    waiting = st.waiting;
    at_work = assign-map job_of s.workers a.at_work i idle st.at_work;
    serving = st.serving;
  },
  complete i (f, x) (st.at_work i ∙ ap job_of e),
)
Step-Act s a v st (leave i lt e h) = unseen s a st i gone (ap job_of (sym e))
Step-Act s a v st (create i lt e) = unseen s a st i idle (ap job_of (sym e))
Step-Act s a v st (sleep i lt e h) = unseen s a st i asleep (ap job_of (sym e))
Step-Act s a v st (wake i lt e) = unseen s a st i idle (ap job_of (sym e))
Step-Act s a v st (cancel i lt e) = unseen s a st i gone (ap job_of (sym e))
Step-Act s a v st shut_down = (
  record a { serving = false },
  record {
    waiting = st.waiting;
    at_work = λ i. st.at_work i ∙ sym (job_of-awaken (s.workers i));
    serving = refl;
  },
  stop,
)

-- The acts of the service from one state to another.
pub data Acts (a : Jobs) : Jobs → Type 0 where
  at_rest : Acts a a
  acts : {b c : Jobs} → Acts a b → Act b c → Acts a c

-- A service without jobs, in the state of the pool.
abbrev pub no_jobs : System → Jobs
no_jobs s = record { waiting = []; at_work = λ i. none; serving = not s.pool.shutdown }

IsStart-Stands : (s : System) → IsStart s → Stands s (no_jobs s)
IsStart-Stands s is = record {
  waiting = rw (is.none_started, is.none_added) refl;
  at_work = λ i. elim (is.resting i) [ inl e ↦ ap job_of (sym e) | inr e ↦ ap job_of (sym e) ];
  serving = refl;
}

-- The pool refines the service: what any interleaving of its threads reaches stands for a state
-- that the service reaches from one without jobs, by taking on jobs while it serves, starting the
-- oldest one, completing them and closing.
pub Reach-Acts :
    (n : ℕ) {start s : System}
    → IsStart start
    → Reach n start s
    → (a : Jobs) × Stands s a × Acts (no_jobs start) a
Reach-Acts n {start} is stays = (no_jobs start, IsStart-Stands start is, at_rest)
Reach-Acts n is (goes {s = s} r step) =
    let (a, stands, before) = Reach-Acts n is r in
    let (b, stands', act) = Step-Act s a (Reach-Inv n is r) stands step in
    (b, stands', acts before act)
