-- ===== src/ThreadPool/Load.antt =====
-- `load_ratio` (Server/thread_pool.c:274) and its two thresholds, in IEEE arithmetic.
use progetto.Prelude.{
  zero, ◌^◌, ◌≤◌, sym, ◌%◌, arith, ◌*◌, false, ◌==◌, leb, ◌&&◌, refl, ◌+◌, true, ◌≡◌, ◌<◌, ltb,
  if◌then◌else◌, ◌/◌, suc, not, ℕ, Bool,
}

-- A value of `float` that is not negative: `finite q e` is q / 2 ^ e.
pub data Float : Type 0 where
  finite : ℕ → ℕ → Float
  infinite : Float
  not_a_number : Float

-- n / d to the nearest integer, a tie to the even one.
unfoldable pub round_even : ℕ → ℕ → ℕ
round_even n d =
    let q = n / d in
    let r = n % d in
    if ltb (2 * r) d then q else if ltb d (2 * r) then q + 1 else if q % 2 == 0 then q else q + 1

-- From exponent `e` on, the first that makes the quotient at least 2 ^ 23.
unfoldable pub scale_up : ℕ → ℕ → ℕ → ℕ → ℕ
scale_up zero a c e = e
scale_up (suc k) a c e =
    let next = scale_up k a c (e + 1) in if leb (2 ^ 23 * c) (a * 2 ^ e) then e else next

-- `(float)a / c` for ints below 2 ^ 24: the 24-bit value nearest to the quotient, which is below
-- 2 ^ 24 and has its exponent within 48.
unfoldable pub load_ratio : ℕ → ℕ → Float
unfolding round_even scale_up
load_ratio a c =
    if c == 0
    then (if a == 0 then not_a_number else infinite)
    else if a == 0
    then finite 0 0
    else (let e = scale_up 48 a c 0 in finite (round_even (a * 2 ^ e) c) e)

-- THREAD_POOL_SCALE_UP_THRESHOLD and THREAD_POOL_SCALE_DOWN_THRESHOLD are doubles: 0.6 is
-- `threshold / 2 ^ 53`, and 0.3 is `threshold / 2 ^ 54`.
abbrev threshold : ℕ
threshold = 5404319552844595

-- `load_ratio > THREAD_POOL_SCALE_UP_THRESHOLD`, compared as doubles.
unfoldable pub above_scale_up : Float → Bool
above_scale_up (finite q e) = ltb (threshold * 2 ^ e) (q * 2 ^ 53)
above_scale_up infinite = true
above_scale_up not_a_number = false

-- `load_ratio < THREAD_POOL_SCALE_DOWN_THRESHOLD`
unfoldable pub below_scale_down : Float → Bool
below_scale_down (finite q e) = ltb (q * 2 ^ 54) (threshold * 2 ^ e)
below_scale_down infinite = false
below_scale_down not_a_number = false

all_below : ℕ → (ℕ → Bool) → Bool
all_below zero p = true
all_below (suc n) p = p n && all_below n p

all_below-lt : (n : ℕ) (p : ℕ → Bool) (x : ℕ) → all_below n p ≡ true → x < n → p x ≡ true
unfolding all_below
all_below-lt zero p x h lt = absurd (omega arith)
all_below-lt (suc n) p x h lt = ground (arith, all_below-lt n p x)

same_bool : Bool → Bool → Bool
same_bool true b = b
same_bool false b = not b

same_bool-eq : (a b : Bool) → same_bool a b ≡ true → a ≡ b
unfolding same_bool
same_bool-eq true b h = sym h
same_bool-eq false true h = cc
same_bool-eq false false h = refl

-- The tests as exact comparisons of integers.
exact : ℕ → ℕ → Bool
unfolding load_ratio above_scale_up below_scale_down same_bool
exact k a =
    same_bool (above_scale_up (load_ratio a (suc k))) (leb (3 * suc k) (5 * a))
    && same_bool (below_scale_down (load_ratio a (suc k))) (ltb (10 * a) (3 * suc k))

table : all_below 32 (λ k. all_below 65 (exact k)) ≡ true
unfolding all_below exact
table = refl

exact_below : (k a : ℕ) → k < 32 → a < 65 → exact k a ≡ true
exact_below k a hk ha =
    all_below-lt 65 (exact k) a (all_below-lt 32 (λ k. all_below 65 (exact k)) k table hk) ha

and_true : (a b : Bool) → (a && b) ≡ true → (a ≡ true) × (b ≡ true)
and_true true b h = (refl, h)
and_true false b h = cc

exact_parts :
    (a k : ℕ)
    → k < 32
    → a < 65
    → (same_bool (above_scale_up (load_ratio a (suc k))) (leb (3 * suc k) (5 * a)) ≡ true)
      × (same_bool (below_scale_down (load_ratio a (suc k))) (ltb (10 * a) (3 * suc k)) ≡ true)
unfolding exact
exact_parts a k hk ha = and_true _ _ (exact_below k a hk ha)

-- Up to 32 threads, the float tests agree with the exact quotient, but for a load of exactly 60 %,
-- which counts as above the threshold: 0.6 as a float is more than 0.6 as a double.
pub load_ratio_exact :
    (a c : ℕ)
    → 0 < c
    → c ≤ 32
    → a ≤ 64
    → (above_scale_up (load_ratio a c) ≡ leb (3 * c) (5 * a))
      × (below_scale_down (load_ratio a c) ≡ ltb (10 * a) (3 * c))
load_ratio_exact a zero pos hc ha = absurd (omega arith)
load_ratio_exact a (suc k) pos hc ha =
    let (up, down) = exact_parts a k (omega arith) (omega arith) in
    (same_bool-eq _ _ up, same_bool-eq _ _ down)
