-- ===== src/ThreadPool/TaskList.antt =====
-- The linked list of tasks on an explicit heap: `queue_head`, `queue_tail` and the `next` fields.
pub mod Ends
use progetto.Prelude.{
  ◌∙◌, sym, arith, [], ◌==◌, ◌++◌, ◌∷◌, if◌then◌else◌, List, ℕ, ◌≡◌, ◌≢◌, refl, Option, none, some,
}

-- An address; `none` for a pointer is NULL.
abbrev pub Ptr : Type 0
Ptr = ℕ

pub record Task : Type 0 where
  pub function : ℕ
  pub argument : ℕ
  pub next : Option Ptr

abbrev pub Heap : Type 0
Heap = Ptr → Option Task

unfoldable pub update : Heap → Ptr → Option Task → Heap
update h p t a = if a == p then t else h a

pub record TaskList : Type 0 where
  pub heap : Heap
  pub queue_head : Option Ptr
  pub queue_tail : Option Ptr

-- `queue_tail->next = task`, a fault (`none`) where no task stands.
unfoldable pub link_tail : Heap → Option Ptr → Ptr → Option Heap
link_tail h none p = none
link_tail h (some z) p = elim (h z) [
  | none ↦ none
  | some t ↦ some (update h z (some (record t { next = some p })))
]

-- The new task is written at `p`, the address that `malloc` gave, and put at the end.
unfoldable pub append_task : TaskList → Ptr → ℕ → ℕ → Option TaskList
unfolding update link_tail
append_task q p function argument =
    let h =
      update q.heap p (some (record { function = function; argument = argument; next = none })) in
    elim q.queue_head [
      | none ↦ some (record { heap = h; queue_head = some p; queue_tail = some p })
      | some a ↦ elim (link_tail h q.queue_tail p) [
        | none ↦ none
        | some h' ↦ some (record { heap = h'; queue_head = q.queue_head; queue_tail = some p })
      ]
    ]

-- `queue_tail = NULL` if the list got empty.
abbrev pub tail_after : Option Ptr → Option Ptr → Option Ptr
tail_after none tail = none
tail_after (some a) tail = tail

-- The first task, with its address; a fault where no task stands.
unfoldable pub take_task : TaskList → Option (Ptr × Task × TaskList)
take_task q = elim q.queue_head [
  | none ↦ none
  | some a ↦ elim (q.heap a) [
    | none ↦ none
    | some t ↦
        some (a, t, record q { queue_head = t.next; queue_tail = tail_after t.next q.queue_tail })
  ]
]

-- `free(task)`
unfoldable pub free_task : TaskList → Ptr → TaskList
unfolding update
free_task q p = record q { heap = update q.heap p none }

-- What the list stands for: address, function and argument of each task, first to last.
abbrev pub Cells : Type 0
Cells = List (Ptr × ℕ × ℕ)

abbrev pub Chain : Heap → Option Ptr → Cells → Type 0
Chain h p [] = p ≡ none
Chain h p ((a, f, x) ∷ cs) =
    (p ≡ some a)
    × ((n : Option Ptr) × (h a ≡ some (record { function = f; argument = x; next = n }))
        × Chain h n cs)

abbrev pub last_of : Cells → Option Ptr
last_of [] = none
last_of ((a, f, x) ∷ []) = some a
last_of (c ∷ d ∷ cs) = last_of (d ∷ cs)

abbrev pub Fresh : Ptr → Cells → Type 0
Fresh p [] = Unit
Fresh p ((a, f, x) ∷ cs) = (a ≢ p) × Fresh p cs

abbrev pub Distinct : Cells → Type 0
Distinct [] = Unit
Distinct ((a, f, x) ∷ cs) = Fresh a cs × Distinct cs

pub record IsTaskList (q : TaskList) (cs : Cells) : Type 0 where
  pub chain : Chain q.heap q.queue_head cs
  pub tail : q.queue_tail ≡ last_of cs
  pub distinct : Distinct cs
