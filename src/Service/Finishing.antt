-- ===== src/Service/Finishing.antt =====
-- Every accepted connection is served and closed.
use progetto.Prelude.{
  status_sum-assign, status_sum-cases, sym, nil_of_length, [], ℕ, zero, suc, ◌<◌, ◌≡◌, ◌≢◌, ◌∙◌,
  arith, inl, inr, ap, refl, false, count,
}
use progetto.Service.{Service, free, Reaches, IsFresh, moves}
use progetto.Service.Counts.{arguments, held_by, at_work}
use progetto.Service.Moves.{Reaches-Keeps, Reaches-Reach}
use progetto.Service.Descriptors.{Reaches-unclosed}
use progetto.ThreadPool.System.{gone}
use progetto.ThreadPool.System.Counting.{busy}
use progetto.ThreadPool.System.Order.{Reach-Inv}
use progetto.Service.Progress.{Proceeds, Reaches-Proceeds, proceeds, rests, Serves, service_work}
use progetto.Service.Advances.{duty_work_free, duty_work}

serve_all :
    (n k : ℕ) {start s : Service} (i : ℕ)
    → IsFresh start
    → Reaches n start s
    → s.sys.pool.shutdown ≡ false
    → i < n
    → s.sys.workers i ≢ gone
    → service_work n s ≡ k
    → (t : Service) × Serves n s k t
      × Reaches n start t
      × (service_work n t ≡ 0)
      × (t.accepted ≡ s.accepted)
serve_all n zero {s = s} i is r open_pool lt up e = (s, rests, r, e, refl)
serve_all n (suc k) {s = s} i is r open_pool lt up e =
    elim (Reaches-Proceeds n s is r i open_pool lt up) [
      | inl none_left ↦ absurd (omega (arith, none_left, e))
      | inr (t, p) ↦
          let (j, below, there) = p.up in
          let (u, run, reached, idle_pool, same) =
            serve_all n k j is (moves r p.move) (p.shutdown ∙ open_pool) below there
              (omega (arith, p.less, e)) in
          (u, proceeds p run, reached, idle_pool, same ∙ p.accepted)
    ]

none_active :
    (n : ℕ) {start s : Service}
    → IsFresh start
    → Reaches n start s
    → service_work n s ≡ 0
    → s.sys.pool.active_threads ≡ 0
none_active n {s = s} is r over =
    let v = Reach-Inv n is.pool (Reaches-Reach n r) in
    let k = Reaches-Keeps n is r in
    elim (status_sum-cases busy n s.sys.workers) [
      | inl (rest, _) ↦ v.active ∙ rest
      | inr (i, lt, pos) ↦ absurd (
          let moved = status_sum-assign duty_work n i s.duties free lt in
          let rests = ap at_work (duty_work_free (s.duties i) (omega (arith, moved, over))) in
          omega (arith, k.link i, rests, pos))
    ]

pub all_closed :
    (n : ℕ) {start s : Service} (fd : ℕ)
    → IsFresh start
    → Reaches n start s
    → service_work n s ≡ 0
    → count fd s.closed ≡ count fd s.accepted
all_closed n {s = s} fd is r over =
    let (waiting, split, size, unclosed) = Reaches-unclosed n is r (none_active n is r over) in
    let none_waits : waiting ≡ [] = nil_of_length waiting (omega (arith, size, over)) in
    omega (arith, unclosed fd, ap (λ l. held_by fd s.integers (arguments l)) none_waits)

-- From every reachable state of a server whose pool serves and has a worker, there is a run in which
-- the workers only serve tasks, with four moves for each waiting task and at most three for each
-- that runs, after which every connection accepted so far is closed as often as it was accepted. A
-- move in which a connection is closed stands for a request whose calls return.
pub Reaches-Serves :
    (n : ℕ) {start s : Service} (i : ℕ)
    → IsFresh start
    → Reaches n start s
    → s.sys.pool.shutdown ≡ false
    → i < n
    → s.sys.workers i ≢ gone
    → (t : Service) × Serves n s (service_work n s) t
      × (t.accepted ≡ s.accepted)
      × ((fd : ℕ) → count fd t.closed ≡ count fd s.accepted)
Reaches-Serves n {s = s} i is r open_pool lt up =
    let (t, run, reached, over, same) =
      serve_all n (service_work n s) i is r open_pool lt up refl in
    (t, run, same, λ fd. all_closed n fd is reached over ∙ ap (count fd) same)

-- How far a run in which the workers serve tasks is: it goes on, or every connection is closed.
pub data Fate (n : ℕ) (s : Service) (k : ℕ) (u : Service) : Type 0 where
  over : k ≡ service_work n s → ((fd : ℕ) → count fd u.closed ≡ count fd s.accepted) → Fate n s k u
  on : k < service_work n s → {t : Service} → Proceeds n u t → Fate n s k u

-- From every reachable state of a server whose pool serves and has a worker, each run in which the
-- workers serve tasks, in whatever order, can go on until every connection accepted so far is closed
-- as often as it was accepted, and is then exactly four moves long for each task that waited and
-- one to three for each that ran. A move in which a connection is closed stands for a request
-- whose calls return.
pub Serves-Fate :
    (n k : ℕ) {start s u : Service} (i : ℕ)
    → IsFresh start
    → Reaches n start s
    → s.sys.pool.shutdown ≡ false
    → i < n
    → s.sys.workers i ≢ gone
    → Serves n s k u
    → Fate n s k u
Serves-Fate n k {s = s} i is r open_pool lt up rests =
    elim (Reaches-Proceeds n s is r i open_pool lt up) [
      | inl none_left ↦ over (sym none_left) (λ fd. all_closed n fd is r none_left)
      | inr (t, p) ↦ on (omega (arith, p.less)) p
    ]
Serves-Fate n k {s = s} i is r open_pool lt up (proceeds p run) =
    let (j, below, there) = p.up in
    elim (Serves-Fate n _ j is (moves r p.move) (p.shutdown ∙ open_pool) below there run) [
      | over length closed ↦
          over (omega (arith, length, p.less)) (λ fd. closed fd ∙ ap (count fd) p.accepted)
      | on shorter next ↦ on (omega (arith, shorter, p.less)) next
    ]
