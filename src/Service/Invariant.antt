-- ===== src/Service/Invariant.antt =====
-- A connection comes in, and its task begins: the books are kept.
use mathlib.Core.List.{append_cancel_left}
use native.Mathlib.Decide.{ℕ_discrete}
use progetto.Prelude.{
  assign, status_sum, status_sum-assign, ℕ, ◌+◌, ◌<◌, ◌≡◌, ◌∙◌, sym, ap, arith, refl, append_assoc,
  Option, none, some, [], ◌∷◌, ◌++◌, count, count-append,
}
use progetto.Network.Accept.{store}
use progetto.Service.{Service, free, called}
use progetto.Service.Counts.{
  at_work_free, allocated, is_fd, arguments, held_by, points, holds, arguments-append,
  held_by-append, held_by-store, status_sum-store,
}
use progetto.ThreadPool.TaskList.{Ptr, Task}
use progetto.ThreadPool.System.{System, idle, running}
use progetto.ThreadPool.System.Counting.{busy}
use progetto.ThreadPool.System.Invariant.{Inv, contents}
use progetto.ThreadPool.System.Rounds.{begin_round-Takes}
use progetto.ThreadPool.State.{ThreadPool}
use progetto.ThreadPool.Worker.{runs, begin_round}
use progetto.Service.Books.{Keeps, link-assign, store_self}

module _ {n : ℕ} (s : Service) (k : Keeps n s) where
  open k use {waiting, fifo, refs, fds, link}

  -- No task points to an integer that is not allocated.
  unused-refs :
      (a : Ptr)
      → s.integers a ≡ none
      → (count a (arguments waiting) ≡ 0) × (status_sum (points a) n s.duties ≡ 0)
  unused-refs a e = (omega (arith, refs a, ap allocated e), omega (arith, refs a, ap allocated e))

  connect-refs :
      (client_fd : ℕ) (fd_ptr : Ptr) (f : ℕ)
      → s.integers fd_ptr ≡ none
      → (a : Ptr)
      → count a (arguments (waiting ++ (f, fd_ptr) ∷ [])) + status_sum (points a) n s.duties
        ≡ allocated (store s.integers fd_ptr (some client_fd) a)
  unfolding store
  connect-refs client_fd fd_ptr f unused a = elim (ℕ_discrete a fd_ptr) [
    | yes here ↦
        let (none_waits, none_points) = unused-refs a (ap s.integers here ∙ unused) in
        rw (arguments-append waiting f fd_ptr, count-append a)
          (ground (arith, none_waits, none_points))
    | no other ↦ rw (arguments-append waiting f fd_ptr, count-append a) (ground (arith, refs a))
  ]

  connect-fds :
      (client_fd : ℕ) (fd_ptr : Ptr) (f : ℕ)
      → s.integers fd_ptr ≡ none
      → (fd : ℕ)
      → count fd (client_fd ∷ s.accepted)
        ≡ count fd s.closed
          + (held_by fd
                (store s.integers fd_ptr (some client_fd))
                (arguments (waiting ++ (f, fd_ptr) ∷ []))
              + status_sum (holds fd (store s.integers fd_ptr (some client_fd))) n s.duties)
  connect-fds client_fd fd_ptr f unused fd =
      let (none_waits, none_points) = unused-refs fd_ptr unused in
      let v : Option ℕ = some client_fd in
      let integers = store s.integers fd_ptr v in
      rw (arguments-append waiting f fd_ptr, held_by-append fd integers (arguments waiting) fd_ptr)
        (omega (
          arith,
          fds fd,
          held_by-store fd s.integers fd_ptr v (arguments waiting) none_waits,
          status_sum-store fd s.integers fd_ptr v n s.duties none_points,
          ap (is_fd fd) (store_self s.integers fd_ptr v),
        ))

  pub connect-Keeps :
      (client_fd : ℕ) (fd_ptr : Ptr) (f : ℕ) {t : System}
      → s.integers fd_ptr ≡ none
      → t.added ≡ s.sys.added ++ (f, fd_ptr) ∷ []
      → t.started ≡ s.sys.started
      → ((i : ℕ) → busy (t.workers i) ≡ busy (s.sys.workers i))
      → Keeps n (record s {
        sys = t;
        integers = store s.integers fd_ptr (some client_fd);
        accepted = client_fd ∷ s.accepted;
      })
  connect-Keeps client_fd fd_ptr f unused added started same_busy = record {
    waiting = waiting ++ (f, fd_ptr) ∷ [];
    fifo =
        rw (started, added)
          (sym (append_assoc s.sys.started waiting ((f, fd_ptr) ∷ []))
            ∙ ap (λ l. l ++ (f, fd_ptr) ∷ []) fifo);
    refs = connect-refs client_fd fd_ptr f unused;
    fds = connect-fds client_fd fd_ptr f unused;
    link = λ i. link i ∙ sym (same_busy i);
  }

  pub begin-Keeps :
      (v : Inv n s.sys) (i : ℕ) {p : Ptr} {t : Task} {pool : ThreadPool}
      → i < n
      → s.sys.workers i ≡ idle
      → begin_round s.sys.pool ≡ runs p t pool
      → Keeps n (record s {
        sys = record s.sys {
          pool = pool;
          workers = assign s.sys.workers i (running p t.function t.argument);
          started = s.sys.started ++ (t.function, t.argument) ∷ [];
        };
        duties = assign s.duties i (called t.argument);
      })
  begin-Keeps v i {p} {t} lt e h =
      let k = begin_round-Takes s.sys.pool v.cells v.list v.size h in
      let first : waiting ≡ (t.function, t.argument) ∷ contents k.rest =
        append_cancel_left s.sys.started _ _ (fifo ∙ sym v.fifo) ∙ ap contents k.first in
      let was : s.duties i ≡ free = at_work_free (s.duties i) (link i ∙ ap busy e) in
      record {
        waiting = contents k.rest;
        fifo = append_assoc s.sys.started _ _ ∙ ap (λ l. s.sys.started ++ l) (sym first) ∙ fifo;
        refs = λ a. omega (
          arith,
          refs a,
          ap (λ l. count a (arguments l)) first,
          status_sum-assign (points a) n i s.duties (called t.argument) lt,
          ap (points a) was,
        );
        fds = λ fd. omega (
          arith,
          fds fd,
          ap (λ l. held_by fd s.integers (arguments l)) first,
          status_sum-assign (holds fd s.integers) n i s.duties (called t.argument) lt,
          ap (holds fd s.integers) was,
        );
        link =
            link-assign s.sys.workers s.duties link i (running p t.function t.argument)
              (called t.argument) refl;
      }
