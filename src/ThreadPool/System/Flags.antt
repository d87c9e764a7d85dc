-- ===== src/ThreadPool/System/Flags.antt =====
-- When `admit` and a worker's round go which way, by the flag `shutdown` and the queue.
use progetto.Prelude.{ℕ, ◌≡◌, true, false, some, none, arith}
use progetto.ThreadPool.Worker.{runs, waits, leaves, must_wait, begin_round}
use progetto.ThreadPool.Queue.{entered, enqueue, admit}
use progetto.ThreadPool.State.{ThreadPool}
use progetto.ThreadPool.TaskList.{Task, Ptr}

pub admit-open :
    (pool : ThreadPool) (p f x : ℕ) {pool' : ThreadPool}
    → admit (some pool) (some f) x (some p) ≡ entered pool'
    → pool'.shutdown ≡ false
unfolding admit enqueue
admit-open pool p f x h = ground arith

pub begin_round-waits_open :
    (pool : ThreadPool)
    → begin_round pool ≡ waits
    → (pool.shutdown ≡ false) × (pool.tasks.queue_head ≡ none)
unfolding begin_round must_wait
begin_round-waits_open pool h = ground arith

pub begin_round-leaves_closed :
    (pool : ThreadPool) → begin_round pool ≡ leaves → pool.shutdown ≡ true
unfolding begin_round must_wait
begin_round-leaves_closed pool h = ground arith

pub begin_round-shutdown :
    (pool : ThreadPool) {p : Ptr} {t : Task} {pool' : ThreadPool}
    → begin_round pool ≡ runs p t pool'
    → pool'.shutdown ≡ pool.shutdown
unfolding begin_round must_wait
begin_round-shutdown pool h = ground arith

pub admit-serves :
    (pool : ThreadPool) (p f x : ℕ) {pool' : ThreadPool}
    → admit (some pool) (some f) x (some p) ≡ entered pool'
    → pool.shutdown ≡ false
unfolding admit
admit-serves pool p f x h = ground arith

pub begin_round-serves :
    (pool : ThreadPool) {p : Ptr} {t : Task} {pool' : ThreadPool}
    → begin_round pool ≡ runs p t pool'
    → pool.shutdown ≡ false
unfolding begin_round must_wait
begin_round-serves pool h = ground arith

pub begin_round-leaves : (pool : ThreadPool) → pool.shutdown ≡ true → begin_round pool ≡ leaves
unfolding begin_round must_wait
begin_round-leaves pool h = ground arith

pub begin_round-waits :
    (pool : ThreadPool)
    → pool.shutdown ≡ false
    → pool.tasks.queue_head ≡ none
    → begin_round pool ≡ waits
unfolding begin_round must_wait
begin_round-waits pool h e = ground arith
