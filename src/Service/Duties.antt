-- ===== src/Service/Duties.antt =====
-- A worker reads, closes and ends: the books are kept.
use mathlib.Core.Option.{some-injective}
use native.Mathlib.Decide.{ℕ_discrete}
use progetto.Service.Books.{Keeps, link-assign, link-duty, store_self, store_other}
use progetto.Prelude.{
  assign, status_sum, status_sum-assign, Option-cases, ℕ, ◌<◌, ◌≡◌, ◌≢◌, ◌∙◌, sym, ap, arith, inl,
  inr, refl, none, some, ◌∷◌, count,
}
use progetto.Network.Accept.{Acceptor, store, handle_client_task}
use progetto.Service.{Service, Duty, free, called, serving, returned}
use progetto.Service.Counts.{
  at_work, allocated, is_fd, arguments, points, holds, held_by-store, status_sum-store,
}
use progetto.ThreadPool.TaskList.{Ptr}
use progetto.ThreadPool.System.{System, Status}
use progetto.ThreadPool.System.Counting.{busy}

pub handle_client_task_known :
    (s : Acceptor) (x : Ptr) {fd : ℕ}
    → s.integers x ≡ some fd
    → handle_client_task s x ≡ some (fd, record s { integers = store s.integers x none })
unfolding handle_client_task
handle_client_task_known s x e = rw (handle_client_task, e) refl

pub handle_client_task-reads :
    (s : Acceptor) (x : Ptr) {client_fd : ℕ} {after : Acceptor}
    → handle_client_task s x ≡ some (client_fd, after)
    → (s.integers x ≡ some client_fd) × (after.integers ≡ store s.integers x none)
unfolding handle_client_task
handle_client_task-reads s x h = elim (Option-cases (s.integers x)) [
  | inl e ↦ absurd (ground arith)
  | inr (fd, e) ↦
      let same = some-injective _ _ (sym (handle_client_task_known s x e) ∙ h) in
      (e ∙ ap (λ z. some z.0) same, sym (ap (λ z. z.1.integers) same))
]

points_other : (a b : Ptr) → a ≢ b → points a (called b) ≡ 0
points_other a b h = ground arith

module _ {n : ℕ} (s : Service) (k : Keeps n s) (i : ℕ) (lt : i < n) where
  open k use {waiting, fifo, refs, fds, link}

  -- The task of worker `i` is the only one that points to its integer.
  read_fd-unshared :
      {x : Ptr} {client_fd : ℕ} (duty : Duty)
      → points x duty ≡ 0
      → s.duties i ≡ called x
      → s.integers x ≡ some client_fd
      → (count x (arguments waiting) ≡ 0) × (status_sum (points x) n (assign s.duties i duty) ≡ 0)
  read_fd-unshared {x} duty over e holds_fd =
      let moved = status_sum-assign (points x) n i s.duties duty lt in
      let one : points x (s.duties i) ≡ 1 = ap (points x) e ∙ ground arith in
      let known = ap allocated holds_fd in
      (
        omega (arith, refs x, moved, one, over, known),
        omega (arith, refs x, moved, one, over, known),
      )

  pub read_fd-Keeps :
      {x : Ptr} {client_fd : ℕ}
      → s.duties i ≡ called x
      → s.integers x ≡ some client_fd
      → Keeps n (record s {
        integers = store s.integers x none;
        duties = assign s.duties i (serving client_fd);
      })
  read_fd-Keeps {x} {client_fd} e known =
      let (none_waits, none_points) = read_fd-unshared (serving client_fd) refl e known in
      record {
        waiting = waiting;
        fifo = fifo;
        refs = λ a. elim (ℕ_discrete a x) [
          | yes here ↦
              rw here (
                omega (arith, none_waits, none_points, ap allocated (store_self s.integers x none)))
          | no other ↦ omega (
            arith,
            refs a,
            status_sum-assign (points a) n i s.duties (serving client_fd) lt,
            ap (points a) e,
            ap allocated (store_other s.integers x none a other),
            points_other a x other,
          )
        ];
        fds = λ fd. omega (
          arith,
          fds fd,
          held_by-store fd s.integers x none (arguments waiting) none_waits,
          status_sum-store fd s.integers x none n (assign s.duties i (serving client_fd))
              none_points,
          status_sum-assign (holds fd s.integers) n i s.duties (serving client_fd) lt,
          ap (holds fd s.integers) e,
          ap (is_fd fd) known,
        );
        link = link-duty s.sys.workers s.duties link i (serving client_fd) (sym (ap at_work e));
      }

  pub close_fd-Keeps :
      {client_fd : ℕ}
      → s.duties i ≡ serving client_fd
      → Keeps n (record s { duties = assign s.duties i returned; closed = client_fd ∷ s.closed })
  close_fd-Keeps {client_fd} e = record {
    waiting = waiting;
    fifo = fifo;
    refs = λ a.
        omega
          (arith, refs a, status_sum-assign (points a) n i s.duties returned lt, ap (points a) e);
    fds = λ fd. omega (
      arith,
      fds fd,
      status_sum-assign (holds fd s.integers) n i s.duties returned lt,
      ap (holds fd s.integers) e,
    );
    link = link-duty s.sys.workers s.duties link i returned (sym (ap at_work e));
  }

  pub end_task-Keeps :
      {t : System} (st : Status)
      → 0 ≡ busy st
      → t.workers ≡ assign s.sys.workers i st
      → t.added ≡ s.sys.added
      → t.started ≡ s.sys.started
      → s.duties i ≡ returned
      → Keeps n (record s { sys = t; duties = assign s.duties i free })
  end_task-Keeps st resting workers added started e = record {
    waiting = waiting;
    fifo = rw (added, started) fifo;
    refs = λ a.
        omega (arith, refs a, status_sum-assign (points a) n i s.duties free lt, ap (points a) e);
    fds = λ fd. omega (
      arith,
      fds fd,
      status_sum-assign (holds fd s.integers) n i s.duties free lt,
      ap (holds fd s.integers) e,
    );
    link = rw workers (link-assign s.sys.workers s.duties link i st free resting);
  }
