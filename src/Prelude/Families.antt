-- ===== src/Prelude/Families.antt =====
-- A value for each index: one changed, and sums over the first `n`.
use Prim.Native.Nat.{ℕ, zero, suc, ◌+◌, ◌<◌, ◌≤◌}
use mathlib.Core.Path.{◌≡◌, refl, sym, ap, ◌∙◌}
use mathlib.Core.Logic.{◌≢◌, ◌⊎◌, inl, inr}
use native.Mathlib.Decide.{ℕ_discrete}
use native.Mathlib.Omega.{arith}
use progetto.Prelude.Tests.{◌==◌, if◌then◌else◌}

unfoldable pub assign {ℓ} : {A : Type ℓ} → (ℕ → A) → ℕ → A → ℕ → A
assign w i st j = if j == i then st else w j

pub assign_self {ℓ} : {A : Type ℓ} (w : ℕ → A) (i : ℕ) (st : A) → assign w i st i ≡ st
unfolding assign
assign_self w i st = ground arith

pub assign_other {ℓ} :
    {A : Type ℓ} (w : ℕ → A) (i : ℕ) (st : A) (j : ℕ) → j ≢ i → assign w i st j ≡ w j
unfolding assign
assign_other w i st j other = ground arith

-- What worker `i` keeps, all workers keep.
pub assign-keeps {ℓ ℓ'} :
    {A : Type ℓ} {B : Type ℓ'} (f : A → B) (w : ℕ → A) (i : ℕ) (st : A)
    → f st ≡ f (w i)
    → (j : ℕ) → f (assign w i st j) ≡ f (w j)
assign-keeps f w i st e j = elim (ℕ_discrete j i) [
  | yes here ↦
      ap (λ k. f (assign w i st k)) here
      ∙ ap f (assign_self w i st)
      ∙ e
      ∙ ap (λ k. f (w k)) (sym here)
  | no other ↦ ap f (assign_other w i st j other)
]

-- What is said of each worker is changed as the worker is.
pub assign-map {ℓ ℓ'} :
    {A : Type ℓ} {B : Type ℓ'} (f : A → B) (w : ℕ → A) (v : ℕ → B) (i : ℕ) (st : A)
    → ((j : ℕ) → v j ≡ f (w j))
    → (j : ℕ) → assign v i (f st) j ≡ f (assign w i st j)
assign-map f w v i st e j = elim (ℕ_discrete j i) [
  | yes here ↦
      ap (assign v i (f st)) here
      ∙ assign_self v i (f st)
      ∙ ap f (sym (assign_self w i st))
      ∙ ap (λ k. f (assign w i st k)) (sym here)
  | no other ↦ assign_other v i (f st) j other ∙ e j ∙ ap f (sym (assign_other w i st j other))
]

module _ {ℓ} {A : Type ℓ} (f : A → ℕ) where
  unfoldable pub status_sum : ℕ → (ℕ → A) → ℕ
  status_sum zero w = 0
  status_sum (suc n) w = f (w n) + status_sum n w

  status_sum_beyond :
      (n i : ℕ) (w : ℕ → A) (st : A) → n ≤ i → status_sum n (assign w i st) ≡ status_sum n w
  unfolding status_sum assign
  status_sum_beyond zero i w st h = refl
  status_sum_beyond (suc n) i w st h = ground (arith, status_sum_beyond n i w st)

  pub status_sum-assign :
      (n i : ℕ) (w : ℕ → A) (st : A)
      → i < n
      → status_sum n (assign w i st) + f (w i) ≡ status_sum n w + f st
  unfolding status_sum assign
  status_sum-assign zero i w st h = absurd (omega arith)
  status_sum-assign (suc n) i w st h = elim (ℕ_discrete i n) [
    | yes here ↦ ground (arith, status_sum_beyond n i w st)
    | no below ↦ ground (arith, status_sum-assign n i w st)
  ]

  pub status_sum_zero : (n : ℕ) (w : ℕ → A) → ((i : ℕ) → f (w i) ≡ 0) → status_sum n w ≡ 0
  unfolding status_sum
  status_sum_zero zero w h = refl
  status_sum_zero (suc n) w h = ground (arith, h n, status_sum_zero n w h)

  -- A sum of 0 is one of zeros, and in another one some worker counts.
  pub status_sum-cases :
      (n : ℕ) (w : ℕ → A)
      → ((status_sum n w ≡ 0) × ((i : ℕ) → i < n → f (w i) ≡ 0))
        ⊎ ((i : ℕ) × (i < n) × (0 < f (w i)))
  unfolding status_sum
  status_sum-cases zero w = inl (refl, λ i lt. absurd (omega arith))
  status_sum-cases (suc n) w = elim (status_sum-cases n w) [
    | inr (i, lt, pos) ↦ inr (i, omega arith, pos)
    | inl (none_counts, zeros) ↦ elim (ℕ_discrete (f (w n)) 0) [
      | yes last ↦ inl (
        omega (arith, last, none_counts),
        λ i lt. elim (ℕ_discrete i n) [
          | yes here ↦ rw here last
          | no below ↦ zeros i (omega arith)
        ],
      )
      | no counts ↦ inr (n, omega arith, omega (arith, counts))
    ]
  ]
