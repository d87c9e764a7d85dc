-- ===== src/ThreadPool/System/Counting.antt =====
-- How many workers run a task.
use progetto.Prelude.{status_sum, arith, ℕ, zero, suc, ◌≡◌, refl}
use progetto.ThreadPool.System.{Status, idle, asleep, running, gone, awaken}

abbrev pub busy : Status → ℕ
busy idle = 0
busy asleep = 0
busy (running p f x) = 1
busy gone = 0

abbrev pub busy_count : ℕ → (ℕ → Status) → ℕ
busy_count = status_sum busy

-- Waking all sleepers keeps the tasks that run.
pub busy-awaken : (st : Status) → busy (awaken st) ≡ busy st
busy-awaken idle = refl
busy-awaken asleep = refl
busy-awaken (running p f x) = refl
busy-awaken gone = refl

pub status_sum-awaken :
    (f : Status → ℕ) (n : ℕ) (w : ℕ → Status)
    → ((st : Status) → f (awaken st) ≡ f st)
    → status_sum f n (λ i. awaken (w i)) ≡ status_sum f n w
unfolding status_sum
status_sum-awaken f zero w h = refl
status_sum-awaken f (suc n) w h = omega (arith, h (w n), status_sum-awaken f n w h)
