-- ===== src/ThreadPool/Lifetime/Creation.antt =====
-- Creation of a pool: all or nothing.
use progetto.Prelude.{
  All, length-replicate, refl, if_both, false, inr, inl, ◌∙◌, ap, ◌||◌, ltb, ◌≤◌, Bool, Bool-cases,
  none, length-set, set, some, [], zero, ◌∷◌, arith, length, suc, true, Option, ◌-◌, List, ◌≡◌, ◌+◌,
  ℕ,
}
use progetto.ThreadPool.Lifetime.{
  create_with_limits, failed, ready, Held, Created, nothing, join_threads, start_threads,
  finish_create, new_pool, CreateCalls,
}
use progetto.ThreadPool.State.{ThreadPool}
use progetto.ThreadPool.Scale.Range.{InRange}
use progetto.ThreadPool.TaskList.{Heap, IsTaskList}
use progetto.ThreadPool.Scale.Target.{Succeeds}

-- A new pool has the threads that were asked for and an empty queue; a failure holds nothing.
pub data Made (min_threads max_threads initial_threads : ℕ) (r : Created) : Type 0 where
  made :
      (pool : ThreadPool) (held : Held)
      → r ≡ ready pool held
      → InRange pool
      → pool.thread_count ≡ initial_threads
      → held.running ≡ initial_threads
      → IsTaskList pool.tasks []
      → pool.queue_size ≡ 0
      → pool.active_threads ≡ 0
      → pool.shutdown ≡ false
      → Made min_threads max_threads initial_threads r
  undone : r ≡ failed nothing → Made min_threads max_threads initial_threads r

pub join_threads-running : (j : ℕ) (held : Held) → (join_threads j held).running ≡ held.running - j
unfolding join_threads
join_threads-running zero held = omega arith
join_threads-running (suc j) held =
    omega (arith, join_threads-running j (record held { running = held.running - 1 }))

-- A loop that starts all its threads ends at the last index.
start_threads-all :
    (k i : ℕ) (creates : List (Option ℕ)) (threads : List ℕ) {n : ℕ} {array : List ℕ}
    → start_threads k i creates threads ≡ (true, n, array)
    → (n ≡ i + k) × (length array ≡ length threads)
unfolding start_threads
start_threads-all zero i creates threads h = ground arith
start_threads-all (suc k) i [] threads h = absurd (ground arith)
start_threads-all (suc k) i (none ∷ creates) threads h = absurd (ground arith)
start_threads-all (suc k) i (some t ∷ creates) threads h =
    ground (arith, start_threads-all k (i + 1) creates (set threads i t) h, length-set threads i t)

start_threads_succeed :
    (k i : ℕ) (creates : List (Option ℕ)) (threads : List ℕ)
    → All Succeeds creates
    → k ≤ length creates
    → (start_threads k i creates threads).0 ≡ true
unfolding start_threads
start_threads_succeed zero i creates threads h enough = refl
start_threads_succeed (suc k) i [] threads h enough = absurd (omega arith)
start_threads_succeed (suc k) i (none ∷ creates) threads h enough = absurd h.0
start_threads_succeed (suc k) i (some t ∷ creates) threads h enough =
    start_threads_succeed k (i + 1) creates (set threads i t) h.1 (omega arith)

module _ (heap : Heap) (min_threads max_threads initial_threads : ℕ) (calls : CreateCalls) where
  abbrev pool : ThreadPool
  pool = new_pool heap min_threads max_threads initial_threads calls.now

  abbrev held : Held
  held = record { array = true; mutex = true; cond = true; running = 0 }

  finish_create-Made :
      (r : Bool × ℕ × List ℕ)
      → start_threads initial_threads 0 calls.creates pool.threads ≡ r
      → min_threads ≤ initial_threads
      → initial_threads ≤ max_threads
      → Made min_threads max_threads initial_threads (finish_create pool held r)
  unfolding finish_create new_pool
  finish_create-Made (false, i, threads) e low high = undone (
      ap (λ n. failed (record { array = false; mutex = false; cond = false; running = n }))
        (join_threads-running i (record held { running = i }) ∙ omega arith))
  finish_create-Made (true, i, threads) e low high =
      let (all, size) = start_threads-all initial_threads 0 calls.creates pool.threads e in
      made (record pool { threads = threads }) (record held { running = i }) refl
        (record { at_least = low; at_most = high; room = size ∙ length-replicate max_threads 0 })
        refl (omega (arith, all)) (record { chain = refl; tail = refl; distinct = tt }) refl refl
        refl

  pub create_with_limits-Made :
      Made min_threads max_threads initial_threads
        (create_with_limits heap min_threads max_threads initial_threads calls)
  unfolding create_with_limits
  create_with_limits-Made =
      elim (Bool-cases (ltb initial_threads min_threads || ltb max_threads initial_threads)) [
        | inl bad ↦ rw bad (undone refl)
        | inr fine ↦
            let Goal = Made min_threads max_threads initial_threads in
            rw fine (
              if_both Goal calls.array_allocated
                (if_both Goal calls.mutex_ready
                  (if_both Goal calls.cond_ready
                    (finish_create-Made _ refl (ground arith) (ground arith)) (undone refl))
                  (undone refl))
                (undone refl))
      ]

  finish_create_ready :
      (r : Bool × ℕ × List ℕ)
      → r.0 ≡ true
      → (p : ThreadPool) × (h : Held) × (finish_create pool held r ≡ ready p h)
  unfolding finish_create
  finish_create_ready (true, i, threads) e =
      (record pool { threads = threads }, record held { running = i }, refl)
  finish_create_ready (false, i, threads) e = cc

  create_with_limits_started :
      min_threads ≤ initial_threads
      → initial_threads ≤ max_threads
      → calls.array_allocated ≡ true
      → calls.mutex_ready ≡ true
      → calls.cond_ready ≡ true
      → create_with_limits heap min_threads max_threads initial_threads calls
        ≡ finish_create pool held (start_threads initial_threads 0 calls.creates pool.threads)
  unfolding create_with_limits
  create_with_limits_started low high a m c =
      let fine : (ltb initial_threads min_threads || ltb max_threads initial_threads) ≡ false =
        ground arith in
      rw (fine, a, m, c)

  -- A pool is created if the number of threads is between the limits and no call fails.
  pub create_with_limits_ready :
      min_threads ≤ initial_threads
      → initial_threads ≤ max_threads
      → calls.array_allocated ≡ true
      → calls.mutex_ready ≡ true
      → calls.cond_ready ≡ true
      → All Succeeds calls.creates
      → initial_threads ≤ length calls.creates
      → (p : ThreadPool) × (h : Held) × (create_with_limits heap min_threads max_threads
            initial_threads calls
          ≡ ready p h)
  create_with_limits_ready low high a m c created enough =
      let started =
        start_threads_succeed initial_threads 0 calls.creates pool.threads created enough in
      let (p, h, e) = finish_create_ready _ started in
      (p, h, create_with_limits_started low high a m c ∙ e)
