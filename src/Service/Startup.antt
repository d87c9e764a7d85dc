-- ===== src/Service/Startup.antt =====
-- The server that `init_server` starts is the one whose moves are described here.
use mathlib.Core.Option.{some-injective}
use progetto.Prelude.{
  ℕ, Bool, true, false, none, some, [], ltb, if◌then◌else◌, ◌≡◌, ◌∙◌, sym, ap, refl, inl, inr,
  Bool-cases,
}
use progetto.Config.{thread_pool_min_size, thread_pool_max_size, thread_pool_initial_size}
use progetto.Main.{Server, InitCalls, init_server}
use progetto.Main.Resources.{init_server-Started, started, nothing_held}
use progetto.Service.{Service, IsFresh, free}
use progetto.ThreadPool.TaskList.{Heap}
use progetto.ThreadPool.State.{ThreadPool}
use progetto.ThreadPool.Lifetime.{CreateCalls, Held, create, pool_of}
use progetto.ThreadPool.Lifetime.Creation.{create_with_limits-Made, made, undone}
use progetto.ThreadPool.System.{System, IsStart, idle, gone}

-- The first `k` threads are created and have made no step.
abbrev pub started_system : ℕ → ThreadPool → System
started_system k pool = record {
  pool = pool;
  workers = λ i. if ltb i k then idle else gone;
  added = [];
  started = [];
}

abbrev pub started_service : ThreadPool → Service
started_service pool = record {
  sys = started_system thread_pool_initial_size pool;
  integers = λ a. none;
  duties = λ i. free;
  accepted = [];
  closed = [];
}

-- The pool that `create` gives has no task, and serves.
pub create-IsStart :
    (allocated : Bool) (heap : Heap) (k : ℕ) (calls : CreateCalls) {pool : ThreadPool} {held : Held}
    → create allocated heap k calls ≡ some (pool, held)
    → IsStart (started_system k pool) × (pool.shutdown ≡ false)
unfolding create
create-IsStart false heap k calls h = cc
create-IsStart true heap k calls {pool} {held} h =
    elim (create_with_limits-Made heap thread_pool_min_size thread_pool_max_size k calls) [
      | made p l r range count running list size active open_pool ↦
          let same : (p, l) ≡ (pool, held) = some-injective _ _ (ap pool_of (sym r) ∙ h) in
          let same_pool = ap (λ z. z.0) same in
          (
            record {
              head = ap (λ z. z.tasks.queue_head) (sym same_pool) ∙ list.chain;
              tail = ap (λ z. z.tasks.queue_tail) (sym same_pool) ∙ list.tail;
              no_queue = ap (λ z. z.queue_size) (sym same_pool) ∙ size;
              no_active = ap (λ z. z.active_threads) (sym same_pool) ∙ active;
              resting = λ i. elim (Bool-cases (ltb i k)) [
                | inl created ↦ inl (rw created)
                | inr beyond ↦ inr (rw beyond)
              ];
              none_added = refl;
              none_started = refl;
            },
            ap (λ z. z.shutdown) (sym same_pool) ∙ open_pool,
          )
      | undone r ↦ (let no_pool = ap pool_of (sym r) ∙ h in cc)
    ]

-- The server that `init_server` starts, whichever pool it has, is fresh, and its pool serves: what
-- holds of the states that moves reach from a fresh server holds of it.
pub init_server-IsFresh :
    (heap : Heap) (calls : InitCalls) {s : Server}
    → init_server heap calls ≡ (true, s)
    → (pool : ThreadPool) × (held : Held) × (s.pool ≡ some (pool, held))
      × IsFresh (started_service pool)
      × (pool.shutdown ≡ false)
init_server-IsFresh heap calls {s} h = elim (init_server-Started heap calls) [
  | started pool held s' r by_create holds ↦
      let same : s ≡ s' = ap (λ p. p.1) (sym h ∙ r) in
      let (start, open_pool) =
        create-IsStart calls.pool_allocated heap thread_pool_initial_size calls.pool_calls
          by_create in
      (
        pool,
        held,
        ap (λ z. z.pool) (same ∙ holds),
        record {
          pool = start;
          no_integer = λ a. refl;
          no_duty = λ i. refl;
          none_accepted = refl;
          none_closed = refl;
        },
        open_pool,
      )
  | nothing_held r ↦ cc
]
