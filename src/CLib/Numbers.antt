-- ===== src/CLib/Numbers.antt =====
-- `strtol` in base 10 on a 64-bit `long`, and the `%d` of `snprintf` for a number that is not
-- negative.
use progetto.Prelude.{
  ◌∙◌, ap, ◌≤◌, All, ℕ, zero, suc, ◌+◌, ◌-◌, ◌*◌, ◌/◌, ◌%◌, ◌^◌, ◌<◌, ◌≡◌, Bool, true, false, [],
  ◌∷◌, arith, ltb, ◌==◌, if◌then◌else◌, Bytes, min, Bool-cases, inl, inr,
}
use progetto.CLib.Ctype.{isspace, isdigit}

-- `negsuc n` is -(n + 1).
pub data ℤ : Type 0 where
  pos : ℕ → ℤ
  negsuc : ℕ → ℤ

abbrev pub long_max : ℕ
long_max = 2 ^ 63 - 1

pub record Conversion : Type 0 where
  pub value : ℤ
  pub rest : Bytes

unfoldable pub skip_spaces : Bytes → Bytes
skip_spaces [] = []
skip_spaces (c ∷ s) = if isspace c then skip_spaces s else c ∷ s

-- All leading digits, read behind `n`.
unfoldable pub read_digits : ℕ → Bytes → ℕ × Bytes
read_digits n [] = (n, [])
read_digits n (c ∷ s) =
    let later = read_digits (n * 10 + (c - b'0')) s in if isdigit c then later else (n, c ∷ s)

-- An overflow gives LONG_MAX or LONG_MIN.
abbrev signed : Bool → ℕ → ℤ
signed false n = pos (min n long_max)
signed true zero = pos 0
signed true (suc n) = negsuc (min n long_max)

-- Behind the sign: with no digit there nothing is converted, and `endptr` is the whole text.
unfoldable pub convert : Bytes → Bool → Bytes → Conversion
unfolding isdigit read_digits
convert whole negative [] = record { value = pos 0; rest = whole }
convert whole negative (c ∷ s) =
    if isdigit c
    then (let (n, rest) = read_digits 0 (c ∷ s) in
        record { value = signed negative n; rest = rest })
    else record { value = pos 0; rest = whole }

unfoldable pub read_sign : Bytes → Bytes → Conversion
unfolding convert
read_sign whole [] = convert whole false []
read_sign whole (c ∷ s) =
    if c == b'-'
    then convert whole true s
    else if c == b'+'
    then convert whole false s
    else convert whole false (c ∷ s)

unfoldable pub strtol : Bytes → Conversion
unfolding skip_spaces isspace read_sign
strtol s = read_sign s (skip_spaces s)

-- `n` in decimal, in front of `out`; `f` bounds the number of digits.
unfoldable pub digits : ℕ → ℕ → Bytes → Bytes
digits zero n out = out
digits (suc f) n out =
    let more = digits f (n / 10) ((b'0' + n % 10) ∷ out) in
    if ltb n 10 then (b'0' + n) ∷ out else more

unfoldable pub decimal : ℕ → Bytes
unfolding digits
decimal n = digits (suc n) n []

read_digits-digits :
    (f n : ℕ) (out : Bytes) → n < f → read_digits 0 (digits f n out) ≡ read_digits n out
unfolding read_digits digits isdigit
read_digits-digits zero n out h = absurd (omega arith)
read_digits-digits (suc f) n out h =
    ground (arith, read_digits-digits f (n / 10) ((b'0' + n % 10) ∷ out))

abbrev pub IsDigit : ℕ → Type 0
IsDigit c = isdigit c ≡ true

All-digits : (f n : ℕ) (out : Bytes) → n < f → All IsDigit out → All IsDigit (digits f n out)
unfolding digits isdigit
All-digits zero n out h d = absurd (omega arith)
All-digits (suc f) n out h d = ground (arith, All-digits f (n / 10) ((b'0' + n % 10) ∷ out))

pub All-decimal : (n : ℕ) → All IsDigit (decimal n)
unfolding decimal
All-decimal n = All-digits (suc n) n [] (omega arith) tt

digits-cons : (f n : ℕ) (out : Bytes) → (c : ℕ) × (s : Bytes) × (digits (suc f) n out ≡ c ∷ s)
unfolding digits
digits-cons zero n out = elim (Bool-cases (ltb n 10)) [
  | inl small ↦ (b'0' + n, out, rw small)
  | inr large ↦ (b'0' + n % 10, out, rw large)
]
digits-cons (suc f) n out = elim (Bool-cases (ltb n 10)) [
  | inl small ↦ (b'0' + n, out, rw small)
  | inr large ↦ let (c, s, e) = digits-cons f (n / 10) ((b'0' + n % 10) ∷ out) in (c, s, rw large e)
]

pub decimal-cons : (n : ℕ) → (c : ℕ) × (s : Bytes) × (decimal n ≡ c ∷ s)
unfolding decimal
decimal-cons n = digits-cons n n []

abbrev converted : ℕ × Bytes → Conversion
converted (n, rest) = record { value = pos (min n long_max); rest = rest }

read_sign_digit :
    (whole : Bytes) (c : ℕ) (s : Bytes)
    → IsDigit c
    → read_sign whole (c ∷ s) ≡ converted (read_digits 0 (c ∷ s))
unfolding read_sign convert isdigit
read_sign_digit whole c s d = ground arith

skip_spaces_digit : (c : ℕ) (s : Bytes) → IsDigit c → skip_spaces (c ∷ s) ≡ c ∷ s
unfolding skip_spaces isspace isdigit
skip_spaces_digit c s d = ground arith

read_digits-decimal : (n : ℕ) → read_digits 0 (decimal n) ≡ (n, [])
unfolding decimal read_digits
read_digits-decimal n = read_digits-digits (suc n) n [] (omega arith)

strtol_digit :
    (c : ℕ) (s : Bytes) {n : ℕ}
    → IsDigit c
    → read_digits 0 (c ∷ s) ≡ (n, [])
    → n ≤ long_max
    → strtol (c ∷ s) ≡ record { value = pos n; rest = [] }
unfolding strtol
strtol_digit c s {n} d h b =
    ap (read_sign (c ∷ s)) (skip_spaces_digit c s d)
    ∙ read_sign_digit (c ∷ s) c s d
    ∙ ap converted h
    ∙ ap (λ k. record { value = pos k; rest = [] }) (omega arith)

-- `strtol` reads back the whole of what `%d` prints.
pub strtol-decimal :
    (n : ℕ) → n ≤ long_max → strtol (decimal n) ≡ record { value = pos n; rest = [] }
strtol-decimal n b =
    let (c, s, e) = decimal-cons n in
    rw e (strtol_digit c s (rw e at (All-decimal n)).0 (rw e at (read_digits-decimal n)) b)
