-- ===== src/Prelude/Counts.antt =====
-- How often a number stands in a list.
use Prim.Native.Nat.{ℕ, ◌+◌}
use mathlib.Core.Path.{◌≡◌}
use mathlib.Core.List.{List, [], ◌∷◌, ◌++◌}
use native.Mathlib.Omega.{arith}
use progetto.Prelude.Tests.{◌==◌, if◌then◌else◌}

abbrev pub count : ℕ → List ℕ → ℕ
count a [] = 0
count a (b ∷ l) = (if b == a then 1 else 0) + count a l

pub count-append : (a : ℕ) (l m : List ℕ) → count a (l ++ m) ≡ count a l + count a m
count-append a [] m = omega arith
count-append a (b ∷ l) m = omega (arith, count-append a l m)
