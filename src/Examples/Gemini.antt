-- ===== src/Examples/Gemini.antt =====
-- The Gemini client: Server/gemini_ai.c.
use progetto.Prelude.{[], ◌∷◌, ◌++◌, ◌+◌, codes, some, true, ◌≡◌, ℕ, refl}
use progetto.Gemini.Api.{Json, Curl}
use progetto.Gemini.Request.{my_curl_write_callback, escape_one, escape_from, CurlResponse}
use progetto.Gemini.Api.Answers.{my_curl_write_callback-Gathers, Gathers}

abbrev gathered : CurlResponse
gathered = record { memory = some (codes "{" ++ 0 ∷ []); size = 1 }

my_curl_write_callback-Gathers_test :
    Gathers (codes "{" ++ codes "}") (my_curl_write_callback (codes "}") true gathered).1
my_curl_write_callback-Gathers_test =
    my_curl_write_callback-Gathers (codes "}") (codes "{") gathered
      (record { memory = refl; size = refl })

-- A JSON library in which every lookup finds a value, the next number.
abbrev numbers : Json
numbers = record {
  Object = ℕ;
  tokener_parse = λ text. some 0;
  object_get_ex = λ o key. some (o + 1);
  array_get_idx = λ o i. some (o + 1);
  get_string = λ o. some (codes "Ciao");
}

abbrev curl : Curl
curl = record {
  easy_init = true;
  easy_perform = λ address request. record {
    succeeded = true;
    chunks = (codes "{}", true) ∷ [];
    http_code = 200;
  };
}

escape_test : escape_from 0 (codes "a\"b\\") ≡ codes "a\\\"b\\\\"
unfolding escape_from escape_one
escape_test = refl
