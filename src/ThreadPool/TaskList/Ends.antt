-- ===== src/ThreadPool/TaskList/Ends.antt =====
-- What the operations of the task list do to the tasks that it stands for.
use progetto.Prelude.{◌∙◌, ap, sym, arith, Option, ◌≢◌, ◌++◌, [], ◌∷◌, some, none, ℕ, ◌≡◌, refl}
use progetto.ThreadPool.TaskList.{
  Chain, tail_after, Distinct, last_of, IsTaskList, Heap, Fresh, Ptr, update, take_task, Cells,
  free_task, link_tail, append_task, TaskList, Task,
}

Chain-update :
    (h : Heap) (p : Option Ptr) (cs : Cells) (a : Ptr) (t : Option Task)
    → Fresh a cs
    → Chain h p cs
    → Chain (update h a t) p cs
unfolding update
Chain-update h p [] a t fresh chain = chain
Chain-update h p ((b, f, x) ∷ cs) a t fresh (e, (n, cell, rest)) =
    (e, (n, ground arith, Chain-update h n cs a t fresh.1 rest))

Fresh-append :
    (p : Ptr) (cs : Cells) (a f x : ℕ) → Fresh p cs → a ≢ p → Fresh p (cs ++ (a, f, x) ∷ [])
Fresh-append p [] a f x fresh ne = (ne, tt)
Fresh-append p ((b, g, y) ∷ cs) a f x fresh ne = (fresh.0, Fresh-append p cs a f x fresh.1 ne)

Distinct-append :
    (p f x : ℕ) (cs : Cells) → Fresh p cs → Distinct cs → Distinct (cs ++ (p, f, x) ∷ [])
Distinct-append p f x [] fresh distinct = (tt, tt)
Distinct-append p f x ((a, g, y) ∷ cs) fresh distinct = (
  Fresh-append a cs p f x distinct.0 (λ e. fresh.0 (sym e)),
  Distinct-append p f x cs fresh.1 distinct.1,
)

last_of-append : (cs : Cells) (p f x : ℕ) → last_of (cs ++ (p, f, x) ∷ []) ≡ some p
last_of-append [] p f x = refl
last_of-append (c ∷ []) p f x = refl
last_of-append (c ∷ d ∷ cs) p f x = last_of-append (d ∷ cs) p f x

-- Linking a task behind the last one writes that one only.
link_tail-Chain :
    (h : Heap) (head : Option Ptr) (c : Ptr × ℕ × ℕ) (cs : Cells) (p f x : ℕ)
    → Chain h head (c ∷ cs)
    → Fresh p (c ∷ cs)
    → Distinct (c ∷ cs)
    → h p ≡ some (record { function = f; argument = x; next = none })
    → (h' : Heap) × (link_tail h (last_of (c ∷ cs)) p ≡ some h')
      × ((b : Ptr) → Fresh b (c ∷ cs) → h' b ≡ h b)
      × Chain h' head ((c ∷ cs) ++ (p, f, x) ∷ [])
unfolding link_tail update
link_tail-Chain h head (a, g, y) [] p f x (e, (n, cell, rest)) fresh distinct new = (
  update h a (some (record { function = g; argument = y; next = some p })),
  rw cell,
  (λ b out. ground arith),
  (e, (some p, ground arith, (refl, (none, ground arith, refl)))),
)
link_tail-Chain h head (a, g, y) (d ∷ cs) p f x (e, (n, cell, rest)) fresh distinct new =
    let (h', linked, same, chain) = link_tail-Chain h n d cs p f x rest fresh.1 distinct.1 new in
    (h', linked, (λ b out. same b out.1), (e, (n, same a distinct.0 ∙ cell, chain)))

module _ (q : TaskList) (p f x : ℕ) where
  abbrev new_task : Task
  new_task = record { function = f; argument = x; next = none }

  append_task_empty :
      q.queue_head ≡ none
      → append_task q p f x
        ≡ some (record {
          heap = update q.heap p (some new_task);
          queue_head = some p;
          queue_tail = some p;
        })
  unfolding append_task
  append_task_empty e = ground arith

  append_task_linked :
      {a : Ptr} {h : Heap}
      → q.queue_head ≡ some a
      → link_tail (update q.heap p (some new_task)) q.queue_tail p ≡ some h
      → append_task q p f x
        ≡ some (record { heap = h; queue_head = q.queue_head; queue_tail = some p })
  unfolding append_task
  append_task_linked e linked = ground arith

  update_self : update q.heap p (some new_task) p ≡ some new_task
  unfolding update
  update_self = ground arith

  -- At an address that is not in the list, `append_task` puts the new task at its end, and does not
  -- fault.
  pub append_task-IsTaskList :
      (cs : Cells)
      → IsTaskList q cs
      → Fresh p cs
      → (q' : TaskList) × (append_task q p f x ≡ some q') × IsTaskList q' (cs ++ (p, f, x) ∷ [])
  append_task-IsTaskList [] is fresh = (
    record { heap = update q.heap p (some new_task); queue_head = some p; queue_tail = some p },
    append_task_empty is.chain,
    record { chain = (refl, (none, update_self, refl)); tail = refl; distinct = (tt, tt) },
  )
  append_task-IsTaskList (c ∷ cs) is fresh =
      let written = Chain-update q.heap q.queue_head (c ∷ cs) p (some new_task) fresh is.chain in
      let (h, linked, _, chain) =
        link_tail-Chain (update q.heap p (some new_task)) q.queue_head c cs p f x written fresh
          is.distinct update_self in
      (
        record { heap = h; queue_head = q.queue_head; queue_tail = some p },
        append_task_linked is.chain.0
            (ap (λ z. link_tail (update q.heap p (some new_task)) z p) is.tail ∙ linked),
        record {
          chain = chain;
          tail = sym (last_of-append (c ∷ cs) p f x);
          distinct = Distinct-append p f x (c ∷ cs) fresh is.distinct;
        },
      )

take_task-some :
    (q : TaskList) {a : Ptr} {t : Task}
    → q.queue_head ≡ some a
    → q.heap a ≡ some t
    → take_task q
      ≡ some (a, t, record q { queue_head = t.next; queue_tail = tail_after t.next q.queue_tail })
unfolding take_task
take_task-some q e cell = ground arith

tail-rest :
    (cs : Cells) (c : Ptr × ℕ × ℕ) (h : Heap) (n tail : Option Ptr)
    → Chain h n cs
    → tail ≡ last_of (c ∷ cs)
    → tail_after n tail ≡ last_of cs
tail-rest [] c h n tail chain e = rw chain
tail-rest (d ∷ cs) c h n tail chain e = rw chain.0 e

-- `take_task` takes the first task off a list that has one, leaves the heap as it is, and does not
-- fault.
pub take_task-IsTaskList :
    (q : TaskList) (cs : Cells) (a f x : ℕ)
    → IsTaskList q ((a, f, x) ∷ cs)
    → (t : Task) × (q' : TaskList) × (take_task q ≡ some (a, t, q'))
      × (t.function ≡ f)
      × (t.argument ≡ x)
      × (q'.heap ≡ q.heap)
      × IsTaskList q' cs
take_task-IsTaskList q cs a f x is =
    let (head, (n, cell, rest)) = is.chain in
    (
      record { function = f; argument = x; next = n },
      record q { queue_head = n; queue_tail = tail_after n q.queue_tail },
      take_task-some q head cell,
      refl,
      refl,
      refl,
      record {
        chain = rest;
        tail = tail-rest cs (a, f, x) q.heap n q.queue_tail rest is.tail;
        distinct = is.distinct.1;
      },
    )

pub take_task-none : (q : TaskList) → IsTaskList q [] → take_task q ≡ none
unfolding take_task
take_task-none q is = ground arith

pub free_task-IsTaskList :
    (q : TaskList) (cs : Cells) (p : Ptr)
    → IsTaskList q cs
    → Fresh p cs
    → IsTaskList (free_task q p) cs
unfolding free_task
free_task-IsTaskList q cs p is fresh = record {
  chain = Chain-update q.heap q.queue_head cs p none fresh is.chain;
  tail = is.tail;
  distinct = is.distinct;
}

-- An address in use stays in use when a task is added.
pub append_task_in_use :
    (q : TaskList) (p f x : ℕ) {q' : TaskList} (b : Ptr)
    → append_task q p f x ≡ some q'
    → q.heap b ≢ none
    → q'.heap b ≢ none
unfolding append_task link_tail update
append_task_in_use q p f x b e h = ground arith

pub Fresh-of_unused :
    (h : Heap) (head : Option Ptr) (cs : Cells) (p : Ptr)
    → Chain h head cs
    → h p ≡ none
    → Fresh p cs
Fresh-of_unused h head [] p chain unused = tt
Fresh-of_unused h head ((a, f, x) ∷ cs) p (e, (n, cell, rest)) unused =
    (ground arith, Fresh-of_unused h n cs p rest unused)

pub free_task_other : (q : TaskList) (p b : Ptr) → b ≢ p → (free_task q p).heap b ≡ q.heap b
unfolding free_task update
free_task_other q p b ne = ground arith

pub free_task_self : (q : TaskList) (p : Ptr) → (free_task q p).heap p ≡ none
unfolding free_task update
free_task_self q p = ground arith

pub free_task-Chain :
    (q : TaskList) (p : Ptr) (cs : Cells)
    → Fresh p cs
    → Chain q.heap q.queue_head cs
    → Chain (free_task q p).heap (free_task q p).queue_head cs
unfolding free_task
free_task-Chain q p cs fresh chain = Chain-update q.heap q.queue_head cs p none fresh chain
