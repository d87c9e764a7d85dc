-- ===== src/Main/Resources.antt =====
-- What the server holds after its start-up, and after its end.
use mathlib.Core.Option.{some-injective}
use progetto.ThreadPool.Lifetime.Creation.{create_with_limits-Made, made, undone}
use progetto.Prelude.{
  ◌∙◌, sym, ap, ℕ, ◌≤◌, refl, none, false, some, true, if_both, Option, Bool, ◌≡◌,
}
use progetto.Main.{
  cleanup_server, no_server, finish_init, curl_global_cleanup, Server, close_epoll_fd,
  close_server_fd, InitCalls, init_server,
}
use progetto.ThreadPool.TaskList.{Heap}
use progetto.ThreadPool.State.{ThreadPool}
use progetto.ThreadPool.Lifetime.{pool_of, nothing, CreateCalls, create, Held}
use progetto.Config.{thread_pool_max_size, thread_pool_min_size, thread_pool_initial_size}
use progetto.ThreadPool.Lifetime.Destruction.{destroy-nothing}
use progetto.Utils.Descriptors.{make_socket_non_blocking}

-- A started server holds everything and its pool is as `create` made it; else it holds nothing.
pub data Started (heap : Heap) (calls : InitCalls) (r : Bool × Server) : Type 0 where
  started :
      (pool : ThreadPool) (held : Held) (s : Server)
      → r ≡ (true, s)
      → create calls.pool_allocated heap thread_pool_initial_size calls.pool_calls
        ≡ some (pool, held)
      → s ≡ record {
        curl = true;
        server_fd = true;
        epoll_fd = true;
        pool = some (pool, held);
        running = true;
      }
      → Started heap calls r
  nothing_held : r ≡ (false, no_server) → Started heap calls r

module _ (heap : Heap) (calls : InitCalls) where
  finish_init-Started :
      (o : Option (ThreadPool × Held))
      → create calls.pool_allocated heap thread_pool_initial_size calls.pool_calls ≡ o
      → Started heap calls
          (finish_init o (record no_server { curl = true; server_fd = true; epoll_fd = true }))
  unfolding close_server_fd close_epoll_fd curl_global_cleanup
  finish_init-Started none e = nothing_held refl
  finish_init-Started (some (pool, held)) e = started pool held _ refl e refl

  -- `init_server` either starts the server, which then holds all its resources, or releases what it
  -- had acquired, whichever call fails.
  pub init_server-Started : Started heap calls (init_server heap calls)
  unfolding init_server close_server_fd close_epoll_fd curl_global_cleanup
  init_server-Started =
      let Goal = Started heap calls in
      if_both Goal calls.curl_global
        (if_both Goal calls.socket
          (if_both Goal calls.set_option
            (if_both Goal (make_socket_non_blocking calls.flags calls.set_flags).0
              (if_both Goal calls.bind
                (if_both Goal calls.listen
                  (if_both Goal calls.epoll_create
                    (if_both Goal calls.epoll_add (finish_init-Started _ refl) (nothing_held refl))
                    (nothing_held refl))
                  (nothing_held refl))
                (nothing_held refl))
              (nothing_held refl))
            (nothing_held refl))
          (nothing_held refl))
        (nothing_held refl)

created_pool :
    (allocated : Bool) (heap : Heap) (calls : CreateCalls) {pool : ThreadPool} {held : Held}
    → create allocated heap 8 calls ≡ some (pool, held)
    → (held.running ≡ pool.thread_count) × (pool.thread_count ≤ pool.max_threads)
unfolding create
created_pool false heap calls h = cc
created_pool true heap calls {pool} {held} h =
    elim (create_with_limits-Made heap thread_pool_min_size thread_pool_max_size 8 calls) [
      | made p k r range count running _ _ _ _ ↦
          let same : (p, k) ≡ (pool, held) = some-injective _ _ (ap pool_of (sym r) ∙ h) in
          rw (← ap (λ z. z.0) same, ← ap (λ z. z.1) same) (running ∙ sym count, range.at_most)
      | undone r ↦ (let no_pool = ap pool_of (sym r) ∙ h in cc)
    ]

-- `cleanup_server` right after a start that succeeded leaves nothing held of the server and of its
-- pool.
pub cleanup_server-nothing :
    (n : ℕ) (heap : Heap) (calls : InitCalls) {s : Server}
    → init_server heap calls ≡ (true, s)
    → cleanup_server n s ≡ (no_server, some nothing)
unfolding cleanup_server close_server_fd close_epoll_fd curl_global_cleanup
cleanup_server-nothing n heap calls {s} h = elim (init_server-Started heap calls) [
  | started pool held s' r by_create holds ↦
      let same : s ≡ s' = ap (λ p. p.1) (sym h ∙ r) in
      let (counted, most) = created_pool calls.pool_allocated heap calls.pool_calls by_create in
      rw (same, holds) (ap (λ k. (no_server, some k)) (destroy-nothing n pool held counted most))
  | nothing_held r ↦ cc
]
