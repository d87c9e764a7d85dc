-- ===== src/CLib/Tokens.antt =====
-- `strchr` and `strtok`. A string is its list of bytes, without the terminator.
use progetto.Prelude.{
  ◌∙◌, ◌⊎◌, ap, ℕ, ◌≡◌, refl, false, List, [], ◌∷◌, ◌++◌, Option, none, some, Option-cases,
  Bool-cases, inl, inr, arith, ◌==◌, if◌then◌else◌, Bytes, Lacks,
}

-- The bytes in front of the first `b` and those behind it; `none` is NULL.
unfoldable pub strchr : ℕ → Bytes → Option (Bytes × Bytes)
strchr b [] = none
strchr b (c ∷ s) =
    let later = strchr b s in
    if c == b
    then some ([], s)
    else elim later [ none ↦ none | some (before, after) ↦ some (c ∷ before, after) ]

unfoldable pub skip_delimiters : ℕ → Bytes → Bytes
skip_delimiters b [] = []
skip_delimiters b (c ∷ s) = if c == b then skip_delimiters b s else c ∷ s

-- The bytes up to the next `b`, and what follows it; nothing follows at the end of the string.
unfoldable pub break_at : ℕ → Bytes → Bytes × Bytes
break_at b [] = ([], [])
break_at b (c ∷ s) =
    let (token, rest) = break_at b s in if c == b then ([], s) else (c ∷ token, rest)

-- A call of `strtok` with the one delimiter `b`: the token, and where the next call goes on.
unfoldable pub next_token : ℕ → Bytes → Option (Bytes × Bytes)
next_token b [] = none
next_token b (c ∷ s) = some (break_at b (c ∷ s))

unfoldable pub strtok : ℕ → Bytes → Option (Bytes × Bytes)
unfolding skip_delimiters next_token break_at
strtok b s = next_token b (skip_delimiters b s)

pub strchr-append : (b : ℕ) (s rest : Bytes) → Lacks b s → strchr b (s ++ b ∷ rest) ≡ some (s, rest)
unfolding strchr
strchr-append b [] rest h = ground arith
strchr-append b (c ∷ s) rest h = ground (arith, strchr-append b s rest h.1)

-- What `strchr` finds splits the string at its first `b`.
pub strchr-splits :
    (b : ℕ) (s : Bytes) {before after : Bytes}
    → strchr b s ≡ some (before, after)
    → (s ≡ before ++ b ∷ after) × Lacks b before
unfolding strchr
strchr-splits b [] h = ground arith
strchr-splits b (c ∷ s) {before} {after} h = elim (Option-cases (strchr b s)) [
  | inl missing ↦ ground arith
  | inr ((prefix, suffix), found) ↦
      let (splits, lacks) = strchr-splits b s found in
      elim (Bool-cases (c == b)) [ inl here ↦ ground arith | inr later ↦ ground arith ]
]

-- The fields of `s` between the bytes `b`, empty ones included.
unfoldable pub split : ℕ → Bytes → List Bytes
split b [] = [] ∷ []
split b (c ∷ s) =
    if c == b
    then [] ∷ split b s
    else elim (split b s) [ [] ↦ (c ∷ []) ∷ [] | field ∷ fields ↦ (c ∷ field) ∷ fields ]

unfoldable pub keep_nonempty : List Bytes → List Bytes
keep_nonempty [] = []
keep_nonempty ([] ∷ fields) = keep_nonempty fields
keep_nonempty ((c ∷ field) ∷ fields) = (c ∷ field) ∷ keep_nonempty fields

split-skip_delimiters :
    (b : ℕ) (s : Bytes) → keep_nonempty (split b s) ≡ keep_nonempty (split b (skip_delimiters b s))
unfolding split keep_nonempty skip_delimiters
split-skip_delimiters b [] = refl
split-skip_delimiters b (c ∷ s) = elim (Bool-cases (c == b)) [
  | inl same ↦ rw same (split-skip_delimiters b s)
  | inr other ↦ rw other (rw other)
]

skip_delimiters-head :
    (b : ℕ) (s : Bytes) {c : ℕ} {r : Bytes} → skip_delimiters b s ≡ c ∷ r → (c == b) ≡ false
unfolding skip_delimiters
skip_delimiters-head b [] h = ground arith
skip_delimiters-head b (x ∷ s) {c} {r} h = elim (Bool-cases (x == b)) [
  | inl same ↦ skip_delimiters-head b s (rw same at h)
  | inr other ↦ ground arith
]

pub split-break_at :
    (b : ℕ) (s : Bytes)
    → (fields : List Bytes) × (split b s ≡ (break_at b s).0 ∷ fields)
      × (keep_nonempty fields ≡ keep_nonempty (split b (break_at b s).1))
unfolding split break_at keep_nonempty
split-break_at b [] = ([], refl, refl)
split-break_at b (c ∷ s) = elim (Bool-cases (c == b)) [
  | inl same ↦ (split b s, rw same, rw same)
  | inr other ↦
      let (fields, first, later) = split-break_at b s in (fields, rw (other, first), rw other later)
]

-- What one call of `strtok` does to the nonempty fields that are left: it takes the first.
abbrev pub TakesField : ℕ → Bytes → Type 0
TakesField b s =
    ((strtok b s ≡ none) × (keep_nonempty (split b s) ≡ []))
    ⊎ ((token rest : Bytes) × (strtok b s ≡ some (token, rest))
        × (keep_nonempty (split b s) ≡ token ∷ keep_nonempty (split b rest)))

break_at-TakesField :
    (b c : ℕ) (s : Bytes)
    → (c == b) ≡ false
    → (token rest : Bytes) × (break_at b (c ∷ s) ≡ (token, rest))
      × (keep_nonempty (split b (c ∷ s)) ≡ token ∷ keep_nonempty (split b rest))
unfolding break_at split keep_nonempty
break_at-TakesField b c s other =
    let (fields, first, later) = split-break_at b s in
    (
      c ∷ (break_at b s).0,
      (break_at b s).1,
      rw other,
      rw (other, first) (ap (◌∷◌ (c ∷ (break_at b s).0)) later),
    )

strtok_skipped : (b : ℕ) (s t : Bytes) → skip_delimiters b s ≡ t → strtok b s ≡ next_token b t
unfolding strtok
strtok_skipped b s t e = ap (next_token b) e

skipped-TakesField : (b : ℕ) (s t : Bytes) → skip_delimiters b s ≡ t → TakesField b s
unfolding next_token
skipped-TakesField b s [] e =
    inl (
      strtok_skipped b s [] e,
      split-skip_delimiters b s ∙ rw e (unfold split keep_nonempty in refl),
    )
skipped-TakesField b s (c ∷ t) e =
    let (token, rest, breaks, fields) = break_at-TakesField b c t (skip_delimiters-head b s e) in
    inr (
      token,
      rest,
      strtok_skipped b s (c ∷ t) e ∙ ap some breaks,
      split-skip_delimiters b s ∙ rw e fields,
    )

pub strtok-TakesField : (b : ℕ) (s : Bytes) → TakesField b s
strtok-TakesField b s = skipped-TakesField b s (skip_delimiters b s) refl

pub split-append : (b : ℕ) (s rest : Bytes) → Lacks b s → split b (s ++ b ∷ rest) ≡ s ∷ split b rest
unfolding split
split-append b [] rest h = ground arith
split-append b (c ∷ s) rest h = ground (arith, split-append b s rest h.1)

pub split_self : (b : ℕ) (s : Bytes) → Lacks b s → split b s ≡ s ∷ []
unfolding split
split_self b [] h = refl
split_self b (c ∷ s) h = ground (arith, split_self b s h.1)
