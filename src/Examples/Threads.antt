-- ===== src/Examples/Threads.antt =====
-- The size of the pool and its statistics: Server/thread_pool.c.
use progetto.Prelude.{
  false, none, ◌+◌, ◌-◌, ltb, ◌≤◌, [], some, leb, ◌∷◌, ◌*◌, true, arith, replicate, ◌<◌, ◌≡◌, refl,
}
use progetto.ThreadPool.Load.{load_ratio_exact, below_scale_down, load_ratio, above_scale_up}
use progetto.ThreadPool.Scale.Target.{
  shrunk_count_bounds, grown_count_bounds, Succeeds, auto_scale-target, Scalable,
}
use progetto.ThreadPool.Scale.{ScaleCalls, auto_scale}
use progetto.ThreadPool.State.{get_load_percentage_bounds, ThreadPool, get_load_percentage}
use progetto.ThreadPool.Metrics.{task_time_bounds, nanoseconds, task_time, record_time, Timespec}
use progetto.ThreadPool.Metrics.History.{
  record_time-Summary, greatest, least, record_time_zero, sum, Summary,
}
use progetto.ThreadPool.Scale.Range.{auto_scale-InRange, InRange}
use progetto.Examples.Checks.{All-replicate}

-- Four of six threads work, and eleven tasks wait.
abbrev pub pool : ThreadPool
pool = record {
  threads = 1 ∷ 2 ∷ 3 ∷ 4 ∷ 5 ∷ 6 ∷ 0 ∷ 0 ∷ [];
  thread_count = 6;
  min_threads = 4;
  max_threads = 8;
  tasks = record { heap = λ p. none; queue_head = none; queue_tail = none };
  shutdown = false;
  active_threads = 4;
  queue_size = 11;
  total_tasks_completed = 2;
  last_scale_time = 100;
  total_task_time_ms = 8;
  min_task_time_ms = 3;
  max_task_time_ms = 5;
}

abbrev calls : ScaleCalls
calls = record { now = 102; creates = replicate 8 (some 9); cancels = [] }

pool-InRange : InRange pool
pool-InRange = record { at_least = omega arith; at_most = omega arith; room = refl }

pool-Scalable : Scalable pool calls
pool-Scalable = record {
  running = omega arith;
  limit = omega arith;
  busy = omega arith;
  created = All-replicate Succeeds 8 {x = some 9} tt;
  enough = omega arith;
}

auto_scale-InRange_example : InRange (auto_scale pool calls).pool
auto_scale-InRange_example = auto_scale-InRange pool calls pool-InRange

auto_scale-target_example : (auto_scale pool calls).pool.thread_count ≡ 8
auto_scale-target_example = auto_scale-target pool calls pool-Scalable pool-InRange

load_ratio_exact_example :
    (above_scale_up (load_ratio 3 5) ≡ leb (3 * 5) (5 * 3))
    × (below_scale_down (load_ratio 3 5) ≡ ltb (10 * 3) (3 * 5))
load_ratio_exact_example = load_ratio_exact 3 5 (omega arith) (omega arith) (omega arith)

-- A load of exactly 60 % is above the threshold of 0.6.
sixty_test : above_scale_up (load_ratio 3 5) ≡ true
unfolding load_ratio above_scale_up
sixty_test = refl

grown_count_test : (6 < 8) × (2 * 8 ≤ 3 * 6 + 1) × (8 ≤ 8)
grown_count_test = grown_count_bounds 6 8 (omega arith) (omega arith)

shrunk_count_test : (4 < 6) × (3 * 6 ≤ 4 * 4 + 2) × (4 ≤ 4)
shrunk_count_test = shrunk_count_bounds 6 4 (omega arith) (omega arith)

get_load_percentage_bounds_test :
    (get_load_percentage (some pool) * 6 ≤ 4 * 100)
    × (4 * 100 < (get_load_percentage (some pool) + 1) * 6)
    × (4 ≤ 6 → get_load_percentage (some pool) ≤ 100)
get_load_percentage_bounds_test = get_load_percentage_bounds pool (omega arith)

abbrev start : Timespec
start = record { tv_sec = 7; tv_nsec = 999000000 }

abbrev end : Timespec
end = record { tv_sec = 9; tv_nsec = 1000000 }

task_time_bounds_test :
    (task_time start end * 1000000 < nanoseconds end - nanoseconds start + 1000000)
    × (nanoseconds end - nanoseconds start < task_time start end * 1000000 + 1000000)
task_time_bounds_test = task_time_bounds start end (omega arith) (omega arith) (omega arith)

pool-Summary : Summary pool (5 ∷ 3 ∷ [])
unfolding sum least greatest
pool-Summary = record { completed = refl; total = refl; shortest = refl; longest = refl }

record_time-Summary_example : Summary (record_time pool 4) (4 ∷ 5 ∷ 3 ∷ [])
record_time-Summary_example =
    record_time-Summary pool 4 (5 ∷ 3 ∷ []) (omega arith, (omega arith, tt)) pool-Summary

record_time_zero_test : (record_time (record_time pool 0) 900).min_task_time_ms ≡ 900
record_time_zero_test = record_time_zero pool 900
