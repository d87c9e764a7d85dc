-- ===== src/Utils/Rotation.antt =====
-- `test_response`: which table answers, and in which order.
use progetto.Prelude.{
  refl, ◌∙◌, none, zero, ◌∷◌, suc, [], ◌≤◌, ap, codes, if◌then◌else◌, ◌≢◌, ◌+◌, ◌%◌, get_or, some,
  ◌^◌, Option, ℕ, ◌<◌, ◌≡◌, arith, Bytes, List,
}
use progetto.Utils.Responses.{
  test_response_it, test_response_pt, test_response_de, test_response_fr, test_response_es, Reply,
  test_response_en, test_strings_pt, test_strings_de, test_strings_fr, test_strings_es,
  test_strings_en, Counters, pick, table_index, test_strings_it,
}
use Prim.Native.String.{String}
use progetto.Utils.{to_lowercase, test_response, same, respond_in}
use progetto.CLib.Memory.{c_str, strlen}
use progetto.Config.{max_language_size}

pub data Language : Type 0 where
  english spanish french german portuguese italian : Language

-- The language that a lower-case name stands for; every name that is not known is Italian.
abbrev pub language_of : Bytes → Language
language_of name =
    if same name (codes "english")
    then english
    else if same name (codes "spanish")
    then spanish
    else if same name (codes "french")
    then french
    else if same name (codes "german")
    then german
    else if same name (codes "portougese")
    then portuguese
    else italian

abbrev pub table : Language → List String
table english = test_strings_en
table spanish = test_strings_es
table french = test_strings_fr
table german = test_strings_de
table portuguese = test_strings_pt
table italian = test_strings_it

abbrev pub counter : Language → Counters → ℕ
counter english i = i.en
counter spanish i = i.es
counter french i = i.fr
counter german i = i.de
counter portuguese i = i.pt
counter italian i = i.it

-- A call answers from the table of the language and moves only that table's counter on.
pub record Answers (l : Language) (i : Counters) (r : Option (Option String × Counters))
    : Type 0 where
  pub after : Counters
  pub answers : r ≡ some (some (get_or (table l) (counter l i % 10) ""), after)
  pub moves : counter l after ≡ (counter l i + 1) % 2 ^ 32
  pub keeps : (m : Language) → m ≢ l → counter m after ≡ counter m i

pick_lem : (t : List String) (i : ℕ) → i < 2 ^ 31 → pick t i ≡ some (get_or t (i % 10) "")
unfolding pick table_index
pick_lem t i h = ground arith

respond : Language → Counters → Reply
respond english i = test_response_en i
respond spanish i = test_response_es i
respond french i = test_response_fr i
respond german i = test_response_de i
respond portuguese i = test_response_pt i
respond italian i = test_response_it i

respond_in_lem : (name : Bytes) (i : Counters) → respond_in name i ≡ respond (language_of name) i
unfolding respond_in respond
respond_in_lem name i = ground arith

module _ (l : Language) (i : Counters) where
  respond_text :
      counter l i < 2 ^ 31
      → respond l i ≡ (some (get_or (table l) (counter l i % 10) ""), (respond l i).1)
  unfolding respond test_response_en test_response_es test_response_fr test_response_de
      test_response_pt test_response_it
  respond_text h = ground (arith, pick_lem (table l) (counter l i) h)

  respond_moves : counter l (respond l i).1 ≡ (counter l i + 1) % 2 ^ 32
  unfolding respond test_response_en test_response_es test_response_fr test_response_de
      test_response_pt test_response_it
  respond_moves = ground arith

  respond_keeps : (m : Language) → m ≢ l → counter m (respond l i).1 ≡ counter m i
  unfolding respond test_response_en test_response_es test_response_fr test_response_de
      test_response_pt test_response_it
  respond_keeps m h = ground arith

respond-Answers :
    (l : Language) (i : Counters) → counter l i < 2 ^ 31 → Answers l i (some (respond l i))
unfolding respond test_response_en test_response_es test_response_fr test_response_de
    test_response_pt test_response_it
respond-Answers l i h = record {
  after = (respond l i).1;
  answers = ap some (respond_text l i h);
  moves = respond_moves l i;
  keeps = respond_keeps l i;
}

test_response_fits :
    (language : Bytes) (i : Counters)
    → strlen language < max_language_size
    → test_response language i ≡ some (respond_in (to_lowercase (c_str language)) i)
unfolding test_response
test_response_fits language i short = ground arith

-- A language name that fits its array is answered from its own table, and the counters of the
-- other languages stay as they are.
pub test_response-Answers :
    (language : Bytes) (i : Counters)
    → strlen language < max_language_size
    → counter (language_of (to_lowercase (c_str language))) i < 2 ^ 31
    → Answers (language_of (to_lowercase (c_str language))) i (test_response language i)
test_response-Answers language i short h =
    rw (test_response_fits language i short, respond_in_lem (to_lowercase (c_str language)) i)
      (respond-Answers (language_of (to_lowercase (c_str language))) i h)

abbrev then_ask : Option Reply → (Counters → List (Option String)) → List (Option String)
then_ask none more = []
then_ask (some (text, i)) more = text ∷ more i

-- The answers to `n` requests in one language, one after the other; a call that does not answer
-- ends the list.
pub ask : ℕ → Bytes → Counters → List (Option String)
ask zero language i = []
ask (suc n) language i = then_ask (test_response language i) (ask n language)

-- `n` texts of a table, from index `k` on, around and around.
unfoldable pub around : List String → ℕ → ℕ → List (Option String)
around t k zero = []
around t k (suc n) = some (get_or t (k % 10) "") ∷ around t (k + 1) n

module _ (language : Bytes) where
  abbrev lang : Language
  lang = language_of (to_lowercase (c_str language))

  -- Requests in one language get the texts of its table in turn, for as long as the counter does
  -- not overflow.
  pub ask-around :
      (n : ℕ) (i : Counters)
      → strlen language < max_language_size
      → counter lang i + n ≤ 2 ^ 31
      → ask n language i ≡ around (table lang) (counter lang i) n
  unfolding ask around
  ask-around zero i short h = refl
  ask-around (suc n) i short h =
      let step = test_response-Answers language i short (omega arith) in
      let wraps : counter lang step.after ≡ counter lang i + 1 = omega (arith, step.moves) in
      rw step.answers (
        ap (◌∷◌ (some (get_or (table lang) (counter lang i % 10) "")))
          (ask-around n step.after short (omega arith) ∙ ap (λ k. around (table lang) k n) wraps))
