-- ===== src/Lib.antt =====
-- The dialog server of the Furhat robot (Server/): it accepts a TCP connection, reads one request,
-- answers it and closes the connection.
--
-- Parts and files
--   Config            Server/config.h: limits and message codes.
--   CLib              what the code uses of the C library: strings in arrays, strtok, strtol, ctype.
--   Utils             Server/utils.c: `safe_strncpy`, `trim_whitespace`, `to_lowercase`, and
--                     `test_response` with its tables (Utils/Responses), whose counters threads
--                     share (Utils/Racing), and `make_socket_non_blocking` (Utils/Descriptors).
--   Protocol          Server/protocol.c: `receive_line` and `receive_message` (Receive),
--                     `send_message` (Send), `parse_client_dialog_message` (Dialog), and its loop
--                     over `strtok` with two threads that share the static position (Sharing).
--   ThreadPool        Server/thread_pool.c: the task list on a heap (TaskList), `thread_pool_t`
--                     (State), `thread_pool_add_task` (Queue), a round of `thread_pool_worker`
--                     (Worker), its statistics and `thread_pool_print_stats` (Metrics), the load as
--                     a float (Load), `thread_pool_auto_scale` (Scale), creation and destruction
--                     (Lifetime), and all threads together, with `queue_cond` (System), and the
--                     queue of jobs that they implement (System/Refinement). `queue_mutex` with
--                     `thread_cleanup` is in Locking.
--   Gemini            Server/gemini_ai.c: the request and its escaping (Request), the call of the API
--                     and the reading of its answer (Api).
--   Network           Server/network.c: `process_single_request_and_close`, and in Accept
--                     `accept_new_connection` and `handle_client_task`.
--   Main              Server/main.c: the command line, `init_server` and `cleanup_server`,
--                     `signal_handler` and `run_server` (Loop), `main` (Entry).
--   Service           the main thread and the workers together: Server/network.c's
--                     `accept_new_connection` and `handle_client_task` as moves on the pool's state,
--                     and the descriptors of the connections; in Delivery with the requests and
--                     answers of the clients.
--   Examples          the theorems at concrete inputs, and tests.
--
-- How they interact: the main thread hands each connection to the pool as a task; a worker that
-- takes the task runs `process_single_request_and_close`, which receives a message, parses it,
-- picks an answer and sends it. The pool's code keeps its name without the prefix `thread_pool_`.
--
-- State and calls of the system. Bytes are numbers below 256 and an array is the list of its bytes.
-- A socket is the list of results that its calls of `recv` and `send` give; a list that ends is a
-- timeout for `recv`, and a `send` that has not returned. The pool's heap maps an address to a task
-- that is allocated there. `malloc`, `strdup`, `pthread_create`, `pthread_cancel` and `time` are
-- given by what they return. libcurl and json-c are records of the operations that the code uses;
-- `process_single_request_and_close` takes the AI client as an argument, which
-- `generate_ai_response` of Gemini fills.
--
-- Bounds and fuel. A 32-bit counter wraps as it does in C; thread counts, times and other counters
-- are natural numbers. Where the code subtracts, a theorem or a comment says why the result is not
-- negative. All loops are structural: on the bytes or results that are left, or on the room in a
-- buffer. Fuel is used where digits are printed (the number itself), where the exponent of a float
-- is searched (48, enough for ints below 2 ^ 24), and where the queued tasks are freed (a result
-- below says that their number is enough).
--
-- Threads. Each step is a stretch of code under `queue_mutex`, in any order between the threads.
-- A worker is about to look at the queue, asleep at `queue_cond`, at a task, or not there;
-- `pthread_cond_signal` wakes one sleeper, `pthread_cond_broadcast` all, and a sleeper may wake
-- by itself. Locking has `queue_mutex`, which separates these stretches: there a step is one call
-- on the mutex or what stands between two of them. A worker can be cancelled where it sleeps
-- only, since it disables cancellation behind the wait. In Service a task of a worker has three
-- moves: it reads the descriptor and frees the integer, it serves and closes the connection, and
-- it returns. In Delivery the second move is made with the result of
-- `process_single_request_and_close`, as one step. A request is modelled as if it ran alone; what
-- the threads share there, the position of strtok and the counters of the answers, has models of
-- its own.
--
-- The main loop. A pass is what epoll_wait gives, the time, and whether a signal came; the list of
-- the passes ends with a wait that has not returned. The calls that the loop makes are its result:
-- each `accept_new_connection` among them is a move of Service, which takes any number of moves of
-- the workers between two of them.
--
-- Not modelled: the texts that are printed and the logging, which is compiled out; the client and the
-- load tests.
pub mod Prelude
pub mod Config
pub mod CLib
pub mod Utils
pub mod Protocol
pub mod ThreadPool
pub mod Gemini
pub mod Network
pub mod Main
pub mod Service
pub mod Examples
