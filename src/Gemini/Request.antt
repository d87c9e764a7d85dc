-- ===== src/Gemini/Request.antt =====
-- `generate_gemini_request_json` and `my_curl_write_callback`.
pub mod Escaping
use Prim.Native.String.{String}
use progetto.Prelude.{
  ◌+◌, ◌-◌, ◌*◌, ◌==◌, ltb, if◌then◌else◌, ℕ, Bool, true, false, List, [], ◌∷◌, ◌++◌, Option, none,
  some, Bytes, codes, take, length,
}
use progetto.CLib.Memory.{c_str}

-- `curl_response_t`; `none` for the memory is NULL.
pub record CurlResponse : Type 0 where
  pub memory : Option Bytes
  pub size : ℕ

abbrev pub bytes_of : Option Bytes → Bytes
bytes_of none = []
bytes_of (some m) = m

-- `contents` are the `size * nmemb` bytes; `reallocated` is whether `realloc` succeeded.
unfoldable pub my_curl_write_callback : Bytes → Bool → CurlResponse → ℕ × CurlResponse
my_curl_write_callback contents false response = (0, response)
my_curl_write_callback contents true response = (
  length contents,
  record {
    memory = some (take response.size (bytes_of response.memory) ++ (contents ++ 0 ∷ []));
    size = response.size + length contents;
  },
)

-- The line break in the text is a backslash and an n.
unfoldable pub premise_text : Bytes → Bytes → Bytes
premise_text language personality =
    codes "You are a robot assistant (Furhat robot) designed to adapt to human personality. "
    ++ (codes "Respond in "
        ++ (c_str language
            ++ (codes " language. Here is your personality profile: "
                ++ (c_str personality
                    ++ codes
                        "\\n\\nKeep responses concise (1-3 sentences) and naturally conversational."))))

-- `snprintf` into the 1024 bytes of `premise`.
unfoldable pub premise : Bytes → Bytes → Bytes
premise language personality = take 1023 (premise_text language personality)

unfoldable pub escape_one : ℕ → Bytes
escape_one c =
    if c == b'"'
    then b'\\' ∷ b'"' ∷ []
    else if c == b'\\'
    then b'\\' ∷ b'\\' ∷ []
    else if c == b'\n'
    then b'\\' ∷ b'n' ∷ []
    else if c == b'\r'
    then b'\\' ∷ b'r' ∷ []
    else c ∷ []

abbrev pub escaped_premise_size : ℕ
escaped_premise_size = 4096

-- The loop, with `dst` at index `pos` of `escaped_premise`.
unfoldable pub escape_from : ℕ → Bytes → Bytes
escape_from pos [] = []
escape_from pos (c ∷ src) =
    let later = escape_from (pos + length (escape_one c)) src in
    if ltb pos (escaped_premise_size - 2) then escape_one c ++ later else []

-- The literal parts of the request, in front of the premise, behind it, and at the end.
abbrev pub request_head : Bytes
request_head =
    codes
      "{  \"generationConfig\": {    \"temperature\": 0.9,    \"maxOutputTokens\": 800,    \"topP\": 1,    \"topK\": 1  },  \"safetySettings\": [    {      \"category\": \"HARM_CATEGORY_HARASSMENT\",      \"threshold\": \"BLOCK_MEDIUM_AND_ABOVE\"    },    {      \"category\": \"HARM_CATEGORY_HATE_SPEECH\",      \"threshold\": \"BLOCK_MEDIUM_AND_ABOVE\"    },    {      \"category\": \"HARM_CATEGORY_SEXUALLY_EXPLICIT\",      \"threshold\": \"BLOCK_MEDIUM_AND_ABOVE\"    },    {      \"category\": \"HARM_CATEGORY_DANGEROUS_CONTENT\",      \"threshold\": \"BLOCK_MEDIUM_AND_ABOVE\"    }  ],  \"contents\": [    {      \"role\": \"user\",      \"parts\": [        {          \"text\": \""

abbrev pub request_middle : Bytes
request_middle = codes "        }      ]    },    "

abbrev pub request_end : Bytes
request_end = codes "  ]}"

unfoldable pub request_text : Bytes → Bytes → Bytes
request_text escaped_premise conversation =
    request_head ++ (escaped_premise ++ (b'"' ∷ (request_middle ++ (conversation ++ request_end))))

-- The request, or `none` for -1 if it does not fit with its terminator.
unfoldable pub generate_gemini_request_json : Bytes → Bytes → Bytes → ℕ → Option Bytes
generate_gemini_request_json personality language conversation output_size =
    let json = request_text (escape_from 0 (premise language personality)) (c_str conversation) in
    if ltb (length json) output_size then some json else none
