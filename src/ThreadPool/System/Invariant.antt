-- ===== src/ThreadPool/System/Invariant.antt =====
-- What holds of the queue, the counters and the workers at every moment.
use progetto.Prelude.{
  status_sum_zero, inr, inl, sym, ◌∙◌, refl, ap, length, none, ℕ, ◌≡◌, ◌≢◌, List, [], ◌∷◌, ◌++◌,
}
use progetto.ThreadPool.TaskList.{Cells, IsTaskList, Fresh}
use progetto.ThreadPool.System.{IsStart, System, running}
use progetto.ThreadPool.System.Counting.{busy, busy_count}

-- Function and argument of the queued tasks.
abbrev pub contents : Cells → List (ℕ × ℕ)
contents [] = []
contents ((p, f, x) ∷ cs) = (f, x) ∷ contents cs

-- A task that runs is out of the queue and not freed, and one worker has it.
pub record Owned (s : System) (cells : Cells) : Type 0 where
  pub apart : (i p f x : ℕ) → s.workers i ≡ running p f x → Fresh p cells
  pub in_use : (i p f x : ℕ) → s.workers i ≡ running p f x → s.pool.tasks.heap p ≢ none
  pub unshared :
      (i j p f x g y : ℕ) → s.workers i ≡ running p f x → s.workers j ≡ running p g y → i ≡ j

pub record Inv (n : ℕ) (s : System) : Type 0 where
  pub cells : Cells
  pub list : IsTaskList s.pool.tasks cells
  pub size : s.pool.queue_size ≡ length cells
  pub active : s.pool.active_threads ≡ busy_count n s.workers
  pub fifo : s.started ++ contents cells ≡ s.added
  pub owned : Owned s cells

pub contents-append :
    (cs : Cells) (p f x : ℕ) → contents (cs ++ (p, f, x) ∷ []) ≡ contents cs ++ (f, x) ∷ []
contents-append [] p f x = refl
contents-append (c ∷ cs) p f x = ap (◌∷◌ (c.1, c.2)) (contents-append cs p f x)

pub Fresh-snoc :
    (p : ℕ) (cs : Cells) (a f x : ℕ) → Fresh p cs → a ≢ p → Fresh p (cs ++ (a, f, x) ∷ [])
Fresh-snoc p [] a f x fresh ne = (ne, tt)
Fresh-snoc p (c ∷ cs) a f x fresh ne = (fresh.0, Fresh-snoc p cs a f x fresh.1 ne)

pub IsStart-Inv : (n : ℕ) (s : System) → IsStart s → Inv n s
IsStart-Inv n s i = record {
  cells = [];
  list = record { chain = i.head; tail = i.tail; distinct = tt };
  size = i.no_queue;
  active = i.no_active ∙ sym (status_sum_zero busy n s.workers at_rest);
  fifo = rw (i.none_started, i.none_added);
  owned = record {
    apart = λ j p f x e. tt;
    in_use = λ j p f x e. absurd (not_running j e);
    unshared = λ j k p f x g y e _. absurd (not_running j e);
  };
}
  where
    at_rest : (j : ℕ) → busy (s.workers j) ≡ 0
    at_rest j = elim (i.resting j) [ inl e ↦ ap busy e | inr e ↦ ap busy e ]

    not_running : (j : ℕ) {p f x : ℕ} → s.workers j ≢ running p f x
    not_running j e = elim (i.resting j) [ inl r ↦ cc | inr r ↦ cc ]
