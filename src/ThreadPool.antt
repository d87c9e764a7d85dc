-- ===== src/ThreadPool.antt =====
-- Server/thread_pool.c: the task queue, the workers and the scaling of the pool.
pub mod TaskList
pub mod State
pub mod Queue
pub mod Worker
pub mod Metrics
pub mod Load
pub mod Scale
pub mod Lifetime
pub mod Locking
pub mod System
