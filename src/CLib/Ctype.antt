-- ===== src/CLib/Ctype.antt =====
-- Character classes of the C locale, where bytes from 128 on belong to no class.
use progetto.Prelude.{ℕ, ◌+◌, ◌≡◌, Bool, ◌&&◌, ◌||◌, arith, leb, ◌==◌, if◌then◌else◌}

unfoldable pub isspace : ℕ → Bool
isspace c = c == b' ' || (leb 9 c && leb c 13)

unfoldable pub isdigit : ℕ → Bool
isdigit c = leb b'0' c && leb c b'9'

unfoldable pub tolower : ℕ → ℕ
tolower c = if leb b'A' c && leb c b'Z' then c + 32 else c

pub tolower_idem : (c : ℕ) → tolower (tolower c) ≡ tolower c
unfolding tolower
tolower_idem c = ground arith
