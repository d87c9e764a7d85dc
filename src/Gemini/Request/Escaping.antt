-- ===== src/Gemini/Request/Escaping.antt =====
-- The premise in the request is a JSON string that stands for the premise.
use mathlib.Core.Option
use progetto.Prelude.{
  [], some, true, none, ◌++◌, false, ◌==◌, ◌∷◌, Option, Bool, Bytes, if◌then◌else◌, ℕ,
}
use progetto.Gemini.Request.{escape_one}

abbrev pub decode : ℕ → ℕ
decode c = if c == b'n' then b'\n' else if c == b'r' then b'\r' else c

-- The text of a JSON string up to its closing quote, and what is behind it; `true` behind a
-- backslash. The escapes with `u`, and `b`, `f` and `t`, do not occur here.
unfoldable pub read_string : Bool → Bytes → Option (Bytes × Bytes)
read_string escaped [] = none
read_string true (c ∷ s) = Option.map (λ r. (decode c ∷ r.0, r.1)) (read_string false s)
read_string false (c ∷ s) =
    let plain = Option.map (λ r. (c ∷ r.0, r.1)) (read_string false s) in
    let next = read_string true s in
    if c == b'"' then some ([], s) else if c == b'\\' then next else plain

unfoldable pub escape_all : Bytes → Bytes
escape_all [] = []
escape_all (c ∷ s) = escape_one c ++ escape_all s
