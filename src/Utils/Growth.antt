-- ===== src/Utils/Growth.antt =====
-- How far the counters of `test_response` (Server/utils.c) move.
use Prim.Native.String.{String}
use native.Mathlib.Decide.{ℕ_discrete}
use progetto.Prelude.{
  arith, ◌^◌, ◌<◌, inr, ap, ◌∙◌, sym, inl, ◌≢◌, zero, ◌⊎◌, refl, ◌+◌, ◌≤◌, Option, ◌≡◌, suc, ℕ,
}
use progetto.Utils.Responses.{Counters}
use progetto.Utils.Rotation.{
  Language, english, spanish, french, german, portuguese, italian, Answers, counter,
}

-- The languages, numbered.
abbrev number : Language → ℕ
number english = 0
number spanish = 1
number french = 2
number german = 3
number portuguese = 4
number italian = 5

abbrev numbered : ℕ → Language
numbered zero = english
numbered (suc zero) = spanish
numbered (suc (suc zero)) = french
numbered (suc (suc (suc zero))) = german
numbered (suc (suc (suc (suc zero)))) = portuguese
numbered _ = italian

numbered-number : (l : Language) → numbered (number l) ≡ l
numbered-number english = refl
numbered-number spanish = refl
numbered-number french = refl
numbered-number german = refl
numbered-number portuguese = refl
numbered-number italian = refl

language-cases : (m l : Language) → (m ≡ l) ⊎ (m ≢ l)
language-cases m l = elim (ℕ_discrete (number m) (number l)) [
  | yes e ↦ inl (sym (numbered-number m) ∙ ap numbered e ∙ numbered-number l)
  | no apart ↦ inr (λ same. apart (ap number same))
]

-- No counter has moved on by more than one.
abbrev pub Grows : Counters → Counters → Type 0
Grows i i' = (l : Language) → counter l i' ≤ counter l i + 1

pub Answers-Grows :
    (l : Language) (i : Counters) {r : Option (Option String × Counters)} (a : Answers l i r)
    → counter l i < 2 ^ 31
    → Grows i a.after
Answers-Grows l i a h m = elim (language-cases m l) [
  | inl same ↦
      omega (arith, a.moves, h, ap (λ k. counter k a.after) same, ap (λ k. counter k i) same)
  | inr other ↦ omega (arith, a.keeps m other)
]
