-- ===== src/Utils/Racing.antt =====
-- The static counter of a table (Server/utils.c:111-113) with worker threads that share it: `i++`
-- reads and writes it in two steps, without a lock.
use native.Mathlib.Decide.{ℕ_discrete}
use progetto.Prelude.{
  assign, status_sum_zero, status_sum, status_sum-assign, assign_self, assign_other, lt→ltb, some,
  zero, suc, ℕ, ◌+◌, ◌%◌, ◌^◌, ◌<◌, ◌≤◌, ◌≡◌, ◌∙◌, ◌⊎◌, inl, inr, arith, refl, ap, sym,
}
use progetto.Utils.Responses.{next, table_index}

-- A thread before `i++`, between its read and its write, and with the value that it goes on with.
pub data Asker : Type 0 where
  before : Asker
  has_read : (i : ℕ) → Asker
  given : (i : ℕ) → Asker

pub record Race : Type 0 where
  pub counter : ℕ
  pub askers : ℕ → Asker

-- A step of one of `n` threads.
pub data Tick (n : ℕ) (s : Race) : Race → Type 0 where
  reads :
      (j : ℕ)
      → j < n
      → s.askers j ≡ before
      → Tick n s (record s { askers = assign s.askers j (has_read s.counter) })
  writes :
      (j : ℕ) {i : ℕ}
      → j < n
      → s.askers j ≡ has_read i
      → Tick n s (record { counter = next i; askers = assign s.askers j (given i) })

pub data Ticks (n : ℕ) (start : Race) : Race → Type 0 where
  stays : Ticks n start start
  goes : {s t : Race} → Ticks n start s → Tick n s t → Ticks n start t

abbrev pub is_given : Asker → ℕ
is_given before = 0
is_given (has_read i) = 0
is_given (given i) = 1

-- The values are between the first one and as many more as threads have written.
pub record Ranges (n c : ℕ) (s : Race) : Type 0 where
  pub least : c ≤ s.counter
  pub most : s.counter ≤ c + status_sum is_given n s.askers
  pub held :
      (j i : ℕ) → s.askers j ≡ has_read i → (c ≤ i) × (i ≤ c + status_sum is_given n s.askers)
  pub used : (j i : ℕ) → s.askers j ≡ given i → (c ≤ i) × (i < c + status_sum is_given n s.askers)

is_given_one : (a : Asker) → is_given a ≤ 1
is_given_one before = omega arith
is_given_one (has_read i) = omega arith
is_given_one (given i) = omega arith

is_given_most : (n : ℕ) (w : ℕ → Asker) → status_sum is_given n w ≤ n
unfolding status_sum
is_given_most zero w = omega arith
is_given_most (suc n) w = omega (arith, is_given_most n w, is_given_one (w n))

assign-cases :
    (w : ℕ → Asker) (j : ℕ) (st : Asker) (k : ℕ) {r : Asker}
    → assign w j st k ≡ r
    → (st ≡ r) ⊎ (w k ≡ r)
assign-cases w j st k e = elim (ℕ_discrete k j) [
  | yes here ↦ inl (sym (assign_self w j st) ∙ ap (assign w j st) (sym here) ∙ e)
  | no other ↦ inr (sym (assign_other w j st k other) ∙ e)
]

Tick-Ranges :
    (n c : ℕ) (s : Race) {t : Race} → c + n < 2 ^ 32 → Ranges n c s → Tick n s t → Ranges n c t
Tick-Ranges n c s small r (reads j lt e) =
    let moved = status_sum-assign is_given n j s.askers (has_read s.counter) lt in
    let was = ap is_given e in
    let least = r.least in
    let most = r.most in
    record {
      least = r.least;
      most = omega (arith, r.most, moved, was);
      held = λ k i e'. elim (assign-cases s.askers j (has_read s.counter) k e') [
        | inl new ↦
            (let same : s.counter ≡ i = has_read_inj new in
              (omega (arith, same, least), omega (arith, same, most, moved, was)))
        | inr old ↦ (let (low, high) = r.held k i old in (low, omega (arith, high, moved, was)))
      ];
      used = λ k i e'. elim (assign-cases s.askers j (has_read s.counter) k e') [
        | inl new ↦ cc
        | inr old ↦ (let (low, high) = r.used k i old in (low, omega (arith, high, moved, was)))
      ];
    }
  where
    has_read_inj : {a b : ℕ} → has_read a ≡ has_read b → a ≡ b
    has_read_inj h = cc
Tick-Ranges n c s small r (writes j {i} lt e) =
    let moved = status_sum-assign is_given n j s.askers (given i) lt in
    let was = ap is_given e in
    let (low, high) = r.held j i e in
    let few = is_given_most n (assign s.askers j (given i)) in
    let next : (i + 1) % 2 ^ 32 ≡ i + 1 = omega (arith, small, few, moved, was, high) in
    record {
      least = omega (arith, next, low);
      most = omega (arith, next, high, moved, was);
      held = λ k i' e'. elim (assign-cases s.askers j (given i) k e') [
        | inl new ↦ cc
        | inr old ↦
            (let (low', high') = r.held k i' old in (low', omega (arith, high', moved, was)))
      ];
      used = λ k i' e'. elim (assign-cases s.askers j (given i) k e') [
        | inl new ↦
            (let same : i ≡ i' = given_inj new in
              (omega (arith, same, low), omega (arith, same, high, moved, was)))
        | inr old ↦
            (let (low', high') = r.used k i' old in (low', omega (arith, high', moved, was)))
      ];
    }
  where
    given_inj : {a b : ℕ} → given a ≡ given b → a ≡ b
    given_inj h = cc

Ticks-Ranges :
    (n c : ℕ) {start s : Race}
    → c + n < 2 ^ 32
    → start.counter ≡ c
    → ((k : ℕ) → start.askers k ≡ before)
    → Ticks n start s
    → Ranges n c s
Ticks-Ranges n c {start} small first fresh stays =
    let none_given = status_sum_zero is_given n start.askers (λ k. ap is_given (fresh k)) in
    record {
      least = omega (arith, first);
      most = omega (arith, first, none_given);
      held = λ k i e. absurd (let f = sym (fresh k) ∙ e in cc);
      used = λ k i e. absurd (let f = sym (fresh k) ∙ e in cc);
    }
Ticks-Ranges n c small first fresh (goes {s = s} run tick) =
    Tick-Ranges n c s small (Ticks-Ranges n c small first fresh run) tick

-- If `n` threads take a text each from a table whose counter is `c`, and `c + n` is at most 2 ^ 31,
-- then in every interleaving each thread gets a text of the table, that of an index from `c` to
-- below `c + n`.
pub Ticks-given :
    (n c : ℕ) {start s : Race} (j : ℕ) {i : ℕ}
    → c + n ≤ 2 ^ 31
    → start.counter ≡ c
    → ((k : ℕ) → start.askers k ≡ before)
    → Ticks n start s
    → s.askers j ≡ given i
    → (c ≤ i) × (i < c + n) × (table_index i ≡ some (i % 10))
unfolding table_index
Ticks-given n c {s = s} j {i} small first fresh run e =
    let r = Ticks-Ranges n c (omega (arith, small)) first fresh run in
    let (low, high) = r.used j i e in
    let few = is_given_most n s.askers in
    let below : i < c + n = omega (arith, high, few) in
    (low, below, rw (lt→ltb i (2 ^ 31) (omega (arith, below, small))) refl)
