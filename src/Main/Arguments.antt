-- ===== src/Main/Arguments.antt =====
-- Which port the server listens on.
use progetto.Prelude.{
  refl, refl, inr, Option-cases, inl, Bool-cases, if_both, [], arith, ◌∷◌, some, codes, Bytes, List,
  ◌≡◌, ◌≤◌, ℕ,
}
use progetto.Main.{refused, help, start, read_port, Parsed, parse_arguments}
use progetto.Utils.{same}
use progetto.CLib.Numbers.{strtol-decimal, decimal}

pub data InPorts (r : Parsed) : Type 0 where
  listens : (port : ℕ) → r ≡ start port → 1 ≤ port → port ≤ 65535 → InPorts r
  helps : r ≡ help → InPorts r
  refuses : r ≡ refused → InPorts r

read_port-le : (s : Bytes) {port : ℕ} → read_port s ≡ some port → (1 ≤ port) × (port ≤ 65535)
unfolding read_port
read_port-le s h = ground arith

read_port-decimal : (n : ℕ) → 1 ≤ n → n ≤ 65535 → read_port (decimal n) ≡ some n
unfolding read_port
read_port-decimal n low high = rw (strtol-decimal n (omega arith)) (ground arith)

-- The option `-p` with a number from 1 to 65535 in decimal, and nothing else, gives this port.
pub parse_arguments-decimal :
    (port n : ℕ) → 1 ≤ n → n ≤ 65535 → parse_arguments port (codes "-p" ∷ decimal n ∷ []) ≡ start n
unfolding parse_arguments same
parse_arguments-decimal port n low high = rw (parse_arguments, read_port-decimal n low high)

-- From a port in range, the arguments give a port in range or no server.
pub parse_arguments-InPorts :
    (port : ℕ) (args : List Bytes) → 1 ≤ port → port ≤ 65535 → InPorts (parse_arguments port args)
unfolding parse_arguments
parse_arguments-InPorts port [] low high = listens port refl low high
parse_arguments-InPorts port (a ∷ []) low high = if_both InPorts _ (helps refl) (refuses refl)
parse_arguments-InPorts port (a ∷ v ∷ rest) low high = elim (Bool-cases (same a (codes "-p"))) [
  | inl option ↦ elim (Option-cases (read_port v)) [
    | inl bad ↦ rw (parse_arguments, option, bad) (refuses refl)
    | inr (chosen, found) ↦
        let (least, most) = read_port-le v found in
        rw (parse_arguments, option, found) (parse_arguments-InPorts chosen rest least most)
  ]
  | inr other ↦ rw (parse_arguments, other) (if_both InPorts _ (helps refl) (refuses refl))
]
