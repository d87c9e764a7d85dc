-- ===== src/Utils.antt =====
-- Server/utils.c: copying and trimming of strings, and the canned answers of the test dialog.
pub mod Responses
pub mod Copying
pub mod Descriptors
pub mod Racing
pub mod Trimming
pub mod Growth
pub mod Rotation
use progetto.Prelude.{
  ℕ, zero, suc, ◌-◌, Bool, true, false, [], ◌∷◌, Option, none, some, ltb, ◌==◌, if◌then◌else◌,
  Bytes, codes, length, set, take, get_or,
}
use progetto.CLib.Ctype.{isspace, tolower}
use progetto.CLib.Memory.{c_str, strlen, pad, strncpy}
use progetto.CLib.Numbers.{skip_spaces}
use progetto.Config.{max_language_size}
use Responses.{
  Counters, Reply, test_response_it, test_response_en, test_response_es, test_response_fr,
  test_response_de, test_response_pt,
}

-- `dest` is a whole array; every caller passes its positive `sizeof` as `size`.
unfoldable pub safe_strncpy : Bytes → Bytes → ℕ → Bytes
unfolding strncpy pad c_str
safe_strncpy dest src size = set (strncpy dest src (size - 1)) (size - 1) 0

-- The index at which `end` stops, going down from index `k`.
unfoldable pub trim_end : ℕ → Bytes → ℕ
trim_end zero s = zero
trim_end (suc k) s =
    let lower = trim_end k s in if isspace (get_or s (suc k) 0) then lower else suc k

unfoldable pub trim_trailing : Bytes → Bytes
unfolding trim_end
trim_trailing [] = []
trim_trailing (c ∷ s) = take (suc (trim_end (length s) (c ∷ s))) (c ∷ s)

-- On a string; the array behind it keeps the trimmed string.
unfoldable pub trim_whitespace : Bytes → Bytes
unfolding skip_spaces trim_trailing isspace
trim_whitespace s = trim_trailing (skip_spaces s)

unfoldable pub to_lowercase : Bytes → Bytes
unfolding tolower
to_lowercase [] = []
to_lowercase (c ∷ m) = if c == 0 then c ∷ m else tolower c ∷ to_lowercase m

-- `strcmp(s, t) == 0`
unfoldable pub same : Bytes → Bytes → Bool
same [] [] = true
same [] (d ∷ t) = false
same (c ∷ s) [] = false
same (c ∷ s) (d ∷ t) = if c == d then same s t else false

unfoldable pub respond_in : Bytes → Counters → Reply
respond_in lang_copy i =
    if same lang_copy (codes "english")
    then test_response_en i
    else if same lang_copy (codes "spanish")
    then test_response_es i
    else if same lang_copy (codes "french")
    then test_response_fr i
    else if same lang_copy (codes "german")
    then test_response_de i
    else if same lang_copy (codes "portougese")
    then test_response_pt i
    else test_response_it i

-- `strcpy` into the 16 bytes of `lang_copy` is undefined for a longer string: `none`.
unfoldable pub test_response : Bytes → Counters → Option Reply
unfolding to_lowercase respond_in c_str same test_response_it test_response_en test_response_es
    test_response_fr test_response_de test_response_pt
test_response language i =
    if ltb (strlen language) max_language_size
    then some (respond_in (to_lowercase (c_str language)) i)
    else none
