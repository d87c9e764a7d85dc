-- ===== src/Examples/Checks.antt =====
-- Boolean tests of the conditions of the theorems, for concrete inputs.
use progetto.Prelude.{
  replicate, All, arith, ◌==◌, ◌&&◌, not, true, ℕ, zero, suc, Bool, ◌≡◌, [], ◌∷◌, Bytes, Lacks,
}

unfoldable pub lacks : ℕ → Bytes → Bool
lacks b [] = true
lacks b (c ∷ s) = not (c == b) && lacks b s

pub lacks_lem : (b : ℕ) (s : Bytes) → lacks b s ≡ true → Lacks b s
unfolding lacks
lacks_lem b [] h = tt
lacks_lem b (c ∷ s) h = (ground arith, lacks_lem b s (ground arith))

pub All-replicate {ℓ ℓ'} :
    {A : Type ℓ} (P : A → Type ℓ') (n : ℕ) {x : A} → P x → All P (replicate n x)
All-replicate P zero h = tt
All-replicate P (suc n) h = (h, All-replicate P n h)
