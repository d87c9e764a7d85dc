-- ===== src/Examples/Strings.antt =====
-- Copying, trimming and the canned answers: Server/utils.c.
use Prim.Native.String.{String}
use progetto.Utils.Racing.{
  Race, Ticks, Ticks-given, before, has_read, given, reads, writes, stays, goes,
}
use progetto.Utils.Responses.{table_index}
use progetto.Prelude.{
  assign, ◌<◌, ◌≤◌, [], ◌∷◌, take, ◌+◌, arith, none, some, length, ◌^◌, replicate, codes, Bytes,
  ◌≡◌, refl,
}
use progetto.Utils.{to_lowercase, safe_strncpy, test_response, trim_whitespace, same}
use progetto.Utils.Responses.{test_strings_en, Counters}
use progetto.Utils.Trimming.{trim_whitespace-Trims, Trims}
use progetto.Utils.Rotation.{
  Language, ask-around, counter, table, test_response-Answers, Answers, ask, italian, language_of,
  around,
}
use progetto.CLib.Memory.{c_str}
use progetto.Utils.Copying.{safe_strncpy_lem}

trim_whitespace-Trims_example : Trims (codes " 1 2 ") (trim_whitespace (codes " 1 2 "))
trim_whitespace-Trims_example = trim_whitespace-Trims (codes " 1 2 ")

trim_test : trim_whitespace (codes " 1 2 ") ≡ codes "1 2"
unfolding trim_whitespace
trim_test = refl

abbrev four : Bytes
four = replicate 4 0

safe_strncpy_lem_test :
    (c_str (safe_strncpy four (codes "abcdef") 4) ≡ take 3 (c_str (codes "abcdef")))
    × (length (safe_strncpy four (codes "abcdef") 4) ≡ length four)
safe_strncpy_lem_test = safe_strncpy_lem four (codes "abcdef") 4 (omega arith) (omega arith)

abbrev counters : Counters
counters = record { it = 0; en = 12; es = 0; fr = 0; de = 0; pt = 0 }

abbrev lang_of : String → Language
lang_of s = language_of (to_lowercase (c_str (codes s)))

test_response-Answers_test :
    Answers (lang_of "English") counters (test_response (codes "English") counters)
unfolding c_str to_lowercase same
test_response-Answers_test =
    test_response-Answers (codes "English") counters (omega arith) (omega arith)

ask-around_test :
    ask 3 (codes "English") counters
    ≡ around (table (lang_of "English")) (counter (lang_of "English") counters) 3
unfolding c_str to_lowercase same
ask-around_test = ask-around (codes "English") 3 counters (omega arith) (omega arith)

third_test :
    (around test_strings_en 12 1)
    ≡ some "My personality is modular: today I'm nice, tomorrow I might be a toaster." ∷ []
unfolding around
third_test = refl

-- The name as an English speaker writes it is not known.
portuguese_test : language_of (codes "portuguese") ≡ italian
unfolding same
portuguese_test = refl

-- After 2 ^ 31 calls the index is negative.
overflow_test :
    test_response (codes "english") (record counters { en = 2 ^ 31 })
    ≡ some (none, record counters { en = 2 ^ 31 + 1 })
unfolding test_response
overflow_test = refl

-- Two threads read the counter before one of them writes it: both get the same text.
abbrev at_start : Race
at_start = record { counter = 12; askers = λ j. before }

abbrev both_read : Race
both_read = record at_start {
  askers = assign (assign at_start.askers 0 (has_read 12)) 1 (has_read 12);
}

abbrev both_given : Race
both_given = record {
  counter = 13;
  askers = assign (assign both_read.askers 0 (given 12)) 1 (given 12);
}

Ticks-both_given : Ticks 2 at_start both_given
unfolding assign
Ticks-both_given =
    goes
      (goes (goes (goes stays (reads 0 (omega arith) refl)) (reads 1 (omega arith) refl))
        (writes 0 (omega arith) refl))
      (writes 1 (omega arith) refl)

Ticks-given_example : (12 ≤ 12) × (12 < 12 + 2) × (table_index 12 ≡ some 2)
unfolding assign
Ticks-given_example =
    Ticks-given 2 12 {start = at_start} 1 (omega arith) refl (λ k. refl) Ticks-both_given refl
