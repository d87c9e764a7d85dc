-- ===== src/CLib/Memory.antt =====
-- Character arrays and the string that an array holds: its bytes up to the first NUL.
use progetto.Prelude.{
  ℕ, zero, suc, ◌<◌, ◌≡◌, refl, ap, [], ◌∷◌, ◌++◌, arith, ◌==◌, if◌then◌else◌, Bytes, length, take,
  drop, set, drop-cons, set-append, Lacks,
}

unfoldable pub c_str : Bytes → Bytes
c_str [] = []
c_str (c ∷ m) = if c == 0 then [] else c ∷ c_str m

abbrev pub strlen : Bytes → ℕ
strlen m = length (c_str m)

pub c_str-Lacks : (m : Bytes) → Lacks 0 (c_str m)
unfolding c_str
c_str-Lacks [] = tt
c_str-Lacks (c ∷ m) = ground (arith, c_str-Lacks m)

-- A string without NUL is what the array holds in front of a terminator.
pub c_str-append : (s m : Bytes) → Lacks 0 s → c_str (s ++ 0 ∷ m) ≡ s
unfolding c_str
c_str-append [] m h = refl
c_str-append (c ∷ s) m h = ground (arith, c_str-append s m h.1)

pub c_str_self : (s : Bytes) → Lacks 0 s → c_str s ≡ s
unfolding c_str
c_str_self [] h = refl
c_str_self (c ∷ s) h = ground (arith, c_str_self s h.1)

pub c_str_idem : (m : Bytes) → c_str (c_str m) ≡ c_str m
c_str_idem m = c_str_self (c_str m) (c_str-Lacks m)

-- The bytes that `strncpy` writes: the string cut at `n`, then zeros up to `n`.
unfoldable pub pad : ℕ → Bytes → Bytes
pad zero s = []
pad (suc n) [] = 0 ∷ pad n []
pad (suc n) (c ∷ s) = c ∷ pad n s

unfoldable pub strncpy : Bytes → Bytes → ℕ → Bytes
strncpy dest src n = pad n (c_str src) ++ drop n dest

unfoldable pub memcpy : Bytes → Bytes → ℕ → Bytes
memcpy dest src n = take n src ++ drop n dest

pub length-pad : (n : ℕ) (s : Bytes) → length (pad n s) ≡ n
unfolding pad
length-pad zero s = refl
length-pad (suc n) [] = ap suc (length-pad n [])
length-pad (suc n) (c ∷ s) = ap suc (length-pad n s)

pub c_str-pad : (n : ℕ) (s m : Bytes) → Lacks 0 s → c_str (pad n s ++ 0 ∷ m) ≡ take n s
unfolding pad c_str
c_str-pad zero s m h = refl
c_str-pad (suc n) [] m h = refl
c_str-pad (suc n) (c ∷ s) m h = ground (arith, c_str-pad n s m h.1)

-- Writing the terminator at index `n`, behind `n` bytes.
pub set-terminator :
    (xs dest : Bytes) {n : ℕ}
    → length xs ≡ n
    → n < length dest
    → set (xs ++ drop n dest) n 0 ≡ xs ++ 0 ∷ drop (suc n) dest
set-terminator xs dest {n} e h = rw (drop-cons n dest 0 h) (set-append xs _ 0 _ e)
