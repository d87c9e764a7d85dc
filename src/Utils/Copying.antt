-- ===== src/Utils/Copying.antt =====
-- `safe_strncpy`.
use progetto.Prelude.{
  length-drop, suc, ◌∷◌, ◌++◌, length-append, ◌-◌, take_all, ◌∙◌, ℕ, ◌≤◌, ◌<◌, ◌≡◌, arith, Bytes,
  length, take, drop,
}
use progetto.CLib.Memory.{c_str, c_str-Lacks, c_str-pad, length-pad, pad, set-terminator, strlen}
use progetto.Utils.{safe_strncpy}

safe_strncpy_layout :
    (dest src : Bytes) (size : ℕ)
    → 0 < size
    → size ≤ length dest
    → safe_strncpy dest src size ≡ pad (size - 1) (c_str src) ++ 0 ∷ drop (suc (size - 1)) dest
unfolding safe_strncpy
safe_strncpy_layout dest src size pos fits =
    set-terminator (pad (size - 1) (c_str src)) dest (length-pad (size - 1) (c_str src))
      (omega arith)

-- In an array of at least `size > 0` bytes, `safe_strncpy` leaves the source string cut at
-- `size - 1` bytes, terminated, and the array keeps its length.
pub safe_strncpy_lem :
    (dest src : Bytes) (size : ℕ)
    → 0 < size
    → size ≤ length dest
    → (c_str (safe_strncpy dest src size) ≡ take (size - 1) (c_str src))
      × (length (safe_strncpy dest src size) ≡ length dest)
safe_strncpy_lem dest src size pos fits =
    let layout = safe_strncpy_layout dest src size pos fits in
    (
      rw layout (c_str-pad (size - 1) (c_str src) _ (c_str-Lacks src)),
      rw layout (
          omega (
            arith,
            length-append {0} (pad (size - 1) (c_str src)) (0 ∷ drop (suc (size - 1)) dest),
            length-pad (size - 1) (c_str src),
            length-drop {0} (suc (size - 1)) dest,
          )),
    )

-- So a string shorter than `size` is copied whole.
pub safe_strncpy_whole :
    (dest src : Bytes) (size : ℕ)
    → size ≤ length dest
    → strlen src < size
    → c_str (safe_strncpy dest src size) ≡ c_str src
safe_strncpy_whole dest src size fits short =
    (safe_strncpy_lem dest src size (omega arith) fits).0
    ∙ take_all (size - 1) (c_str src) (omega arith)
