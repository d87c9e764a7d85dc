-- ===== src/Service/Counts.antt =====
-- Which integers the tasks point to, and which descriptors the server still holds.
use progetto.Prelude.{
  status_sum, ap, ℕ, zero, suc, ◌+◌, ◌==◌, ◌≡◌, if◌then◌else◌, arith, refl, Option, none, some,
  List, [], ◌∷◌, ◌++◌, count,
}
use progetto.Network.Accept.{store}
use progetto.Service.{Duty, free, called, serving, returned}
use progetto.ThreadPool.TaskList.{Ptr}

abbrev pub allocated : Option ℕ → ℕ
allocated none = 0
allocated (some fd) = 1

-- Whether this is the descriptor `fd`.
abbrev pub is_fd : ℕ → Option ℕ → ℕ
is_fd fd none = 0
is_fd fd (some g) = if g == fd then 1 else 0

-- The argument of each task.
abbrev pub arguments : List (ℕ × ℕ) → List ℕ
arguments [] = []
arguments ((f, x) ∷ tasks) = x ∷ arguments tasks

-- How often the tasks with these arguments hold the descriptor `fd`.
abbrev pub held_by : ℕ → (Ptr → Option ℕ) → List ℕ → ℕ
held_by fd integers [] = 0
held_by fd integers (a ∷ l) = is_fd fd (integers a) + held_by fd integers l

-- Whether a worker is going to read the integer at `a`.
abbrev pub points : Ptr → Duty → ℕ
points a free = 0
points a (called b) = if b == a then 1 else 0
points a (serving fd) = 0
points a returned = 0

-- Whether a worker holds the descriptor `fd`.
abbrev pub holds : ℕ → (Ptr → Option ℕ) → Duty → ℕ
holds fd integers free = 0
holds fd integers (called a) = is_fd fd (integers a)
holds fd integers (serving g) = if g == fd then 1 else 0
holds fd integers returned = 0

-- Whether a worker has a task.
abbrev pub at_work : Duty → ℕ
at_work free = 0
at_work (called a) = 1
at_work (serving fd) = 1
at_work returned = 1

pub at_work_free : (d : Duty) → at_work d ≡ 0 → d ≡ free
at_work_free free e = refl
at_work_free (called a) e = absurd (omega arith)
at_work_free (serving fd) e = absurd (omega arith)
at_work_free returned e = absurd (omega arith)

pub arguments-append :
    (l : List (ℕ × ℕ)) (f x : ℕ) → arguments (l ++ (f, x) ∷ []) ≡ arguments l ++ x ∷ []
arguments-append [] f x = refl
arguments-append ((g, y) ∷ l) f x = ap (◌∷◌ y) (arguments-append l f x)

pub held_by-append :
    (fd : ℕ) (integers : Ptr → Option ℕ) (l : List ℕ) (a : ℕ)
    → held_by fd integers (l ++ a ∷ []) ≡ held_by fd integers l + is_fd fd (integers a)
held_by-append fd integers [] a = omega arith
held_by-append fd integers (b ∷ l) a = omega (arith, held_by-append fd integers l a)

module _ (fd : ℕ) (integers : Ptr → Option ℕ) (a : Ptr) (v : Option ℕ) where
  -- A change at an address that no task points to changes nothing of what they hold.
  pub held_by-store :
      (l : List ℕ) → count a l ≡ 0 → held_by fd (store integers a v) l ≡ held_by fd integers l
  unfolding store
  held_by-store [] h = refl
  held_by-store (b ∷ l) h = ground (arith, held_by-store l)

  holds-store : (d : Duty) → points a d ≡ 0 → holds fd (store integers a v) d ≡ holds fd integers d
  unfolding store
  holds-store free h = refl
  holds-store (called b) h = ground arith
  holds-store (serving g) h = refl
  holds-store returned h = refl

  pub status_sum-store :
      (n : ℕ) (duties : ℕ → Duty)
      → status_sum (points a) n duties ≡ 0
      → status_sum (holds fd (store integers a v)) n duties
        ≡ status_sum (holds fd integers) n duties
  unfolding status_sum
  status_sum-store zero duties h = refl
  status_sum-store (suc n) duties h = omega (
    arith,
    h,
    holds-store (duties n) (omega (arith, h)),
    status_sum-store n duties (omega (arith, h)),
  )
