-- ===== src/Utils/Trimming.antt =====
-- `trim_whitespace`.
use progetto.Prelude.{
  append-nil, ◌∙◌, take-suc, drop_all, take-append-drop, sym, ap, inr, drop-cons, ◌⊎◌, inl, ◌∷◌, [],
  false, true, ◌++◌, get_or, ℕ, zero, suc, ◌<◌, ◌≡◌, refl, arith, Bytes, length, take, drop, All,
  Bool-cases,
}
use progetto.CLib.Ctype.{isspace}
use progetto.CLib.Numbers.{skip_spaces}
use progetto.Utils.{trim_end, trim_trailing, trim_whitespace}

abbrev pub IsSpace : ℕ → Type 0
IsSpace c = isspace c ≡ true

-- Nothing is left, or the first and the last byte are no white space.
abbrev pub IsTrimmed : Bytes → Type 0
IsTrimmed t =
    (t ≡ [])
    ⊎ ((c : ℕ) × (d : ℕ) × (rest : Bytes) × (init : Bytes) × (t ≡ c ∷ rest)
        × (t ≡ init ++ d ∷ [])
        × (isspace c ≡ false)
        × (isspace d ≡ false))

trim_end_spaces :
    (k : ℕ) (s : Bytes)
    → k < length s
    → All IsSpace (drop (suc k) s)
    → All IsSpace (drop (suc (trim_end k s)) s)
unfolding trim_end
trim_end_spaces zero s h spaces = spaces
trim_end_spaces (suc k) s h spaces = elim (Bool-cases (isspace (get_or s (suc k) 0))) [
  | inl space ↦
      rw space (trim_end_spaces k s (omega arith) (rw (drop-cons (suc k) s 0 h) (space, spaces)))
  | inr stop ↦ rw stop spaces
]

trim_end_stops :
    (k : ℕ) (s : Bytes)
    → k < length s
    → isspace (get_or s 0 0) ≡ false
    → (trim_end k s < length s) × (isspace (get_or s (trim_end k s) 0) ≡ false)
unfolding trim_end
trim_end_stops zero s h first = (h, first)
trim_end_stops (suc k) s h first = elim (Bool-cases (isspace (get_or s (suc k) 0))) [
  | inl space ↦ rw space (trim_end_stops k s (omega arith) first)
  | inr stop ↦ rw stop (h, stop)
]

skip_spaces_lem :
    (s : Bytes)
    → (pre : Bytes) × (s ≡ pre ++ skip_spaces s)
      × All IsSpace pre
      × ((skip_spaces s ≡ [])
          ⊎ ((c : ℕ) × (r : Bytes) × (skip_spaces s ≡ c ∷ r) × (isspace c ≡ false)))
unfolding skip_spaces
skip_spaces_lem [] = ([], refl, tt, inl refl)
skip_spaces_lem (c ∷ s) = elim (Bool-cases (isspace c)) [
  | inl space ↦
      let (pre, splits, spaces, left) = skip_spaces_lem s in
      (c ∷ pre, rw space (ap (◌∷◌ c) splits), (space, spaces), rw space left)
  | inr stop ↦ ([], rw stop, tt, inr (c, s, rw stop, stop))
]

trim_trailing_lem :
    (c : ℕ) (s : Bytes)
    → isspace c ≡ false
    → (post : Bytes) × (c ∷ s ≡ trim_trailing (c ∷ s) ++ post)
      × All IsSpace post
      × IsTrimmed (trim_trailing (c ∷ s))
unfolding trim_trailing
trim_trailing_lem c s first =
    let k = trim_end (length s) (c ∷ s) in
    let (inside, stop) = trim_end_stops (length s) (c ∷ s) (omega arith) first in
    (
      drop k s,
      sym (take-append-drop (suc k) (c ∷ s)),
      trim_end_spaces (length s) (c ∷ s) (omega arith)
          (rw (drop_all (length s) s (omega arith)) tt),
      inr (
        c,
        get_or (c ∷ s) k 0,
        take k s,
        take k (c ∷ s),
        refl,
        take-suc k (c ∷ s) 0 inside,
        first,
        stop,
      ),
    )

-- `t` is `s` without the white space around it.
pub record Trims (s t : Bytes) : Type 0 where
  pub pre : Bytes
  pub post : Bytes
  pub splits : s ≡ pre ++ (t ++ post)
  pub leading : All IsSpace pre
  pub trailing : All IsSpace post
  pub trimmed : IsTrimmed t

blank-Trims :
    (s : Bytes) {pre : Bytes}
    → s ≡ pre
    → All IsSpace pre
    → skip_spaces s ≡ []
    → Trims s (trim_whitespace s)
unfolding trim_whitespace
blank-Trims s {pre} e spaces blank = record {
  pre = pre;
  post = [];
  splits = rw (blank, trim_trailing, append-nil) e;
  leading = spaces;
  trailing = tt;
  trimmed = inl (rw (blank, trim_trailing));
}

-- `trim_whitespace` removes the white space at both ends of a string and nothing else.
pub trim_whitespace-Trims : (s : Bytes) → Trims s (trim_whitespace s)
unfolding trim_whitespace
trim_whitespace-Trims s =
    let (pre, splits, spaces, left) = skip_spaces_lem s in
    elim left [
      | inl blank ↦ blank-Trims s (rw (blank, append-nil) at splits) spaces blank
      | inr (c, r, text, first) ↦
          let (post, cut, after, trimmed) = trim_trailing_lem c r first in
          record {
            pre = pre;
            post = post;
            splits = splits ∙ ap (◌++◌ pre) (rw text cut);
            leading = spaces;
            trailing = after;
            trimmed = rw text trimmed;
          }
    ]
