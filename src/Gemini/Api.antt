-- ===== src/Gemini/Api.antt =====
-- `call_gemini_api` and `generate_ai_response`, with libcurl and json-c as parameters.
pub mod Answers
use mathlib.Core.Option
use Prim.Native.String.{String}
use progetto.Prelude.{
  length, suc, drop, ◌-◌, ◌>>=◌, ◌*◌, ◌==◌, if◌then◌else◌, ℕ, Bool, true, false, List, [], ◌∷◌,
  ◌++◌, Option, none, some, Bytes, codes, take,
}
use progetto.CLib.Memory.{c_str}
use progetto.Config.{max_ai_response_size, max_message_size}
use progetto.Protocol.Receive.{cleared}
use progetto.Utils.{safe_strncpy}
use progetto.Gemini.Request.{CurlResponse, my_curl_write_callback, generate_gemini_request_json}

-- What the code uses of json-c: values, and lookups that find one or not. A JSON null is a value,
-- for which `json_object_get_string` returns NULL: `none`.
pub record Json : Type 1 where
  pub Object : Type 0
  pub tokener_parse : Bytes → Option Object
  pub object_get_ex : Object → String → Option Object
  pub array_get_idx : Object → ℕ → Option Object
  pub get_string : Object → Option Bytes

-- What libcurl does: `curl_easy_init`, and for a request whether `curl_easy_perform` succeeds, the
-- chunks that it hands to the callback, each with the result of `realloc`, and the HTTP code.
pub record Transfer : Type 0 where
  pub succeeded : Bool
  pub chunks : List (Bytes × Bool)
  pub http_code : ℕ

pub record Curl : Type 0 where
  pub easy_init : Bool
  pub easy_perform : Bytes → Bytes → Transfer

pub record AiResponse : Type 0 where
  pub response : Bytes
  pub success : Bool

-- The callback on one chunk after the other; libcurl stops where it returns less.
unfoldable pub collect : List (Bytes × Bool) → CurlResponse → CurlResponse
collect [] r = r
collect ((contents, false) ∷ chunks) r = (my_curl_write_callback contents false r).1
collect ((contents, true) ∷ chunks) r = collect chunks (my_curl_write_callback contents true r).1

-- `snprintf` of a text into an array of `size` bytes.
unfoldable pub print_into : Bytes → Bytes → ℕ → Bytes
print_into dest text size =
    take (size - 1) text ++ 0 ∷ drop (suc (length (take (size - 1) text))) dest

abbrev pub or_null : Option Bytes → Bytes
or_null none = codes "(null)"
or_null (some text) = text

unfoldable pub url : Bytes → Bytes
url api_key = take 511 (
    codes "https://generativelanguage.googleapis.com/v1beta/models/gemini-1.5-flash:generateContent"
    ++ (codes "?key=" ++ c_str api_key))

module _ (json : Json) where
  -- The lookups of the answer, one after the other.
  unfoldable pub find_text : json.Object → Option json.Object
  find_text resp_root = do
    candidates ← json.object_get_ex resp_root "candidates"
    first_candidate ← json.array_get_idx candidates 0
    content ← json.object_get_ex first_candidate "content"
    parts ← json.object_get_ex content "parts"
    first_part ← json.array_get_idx parts 0
    json.object_get_ex first_part "text"

  unfoldable pub find_error : json.Object → Option json.Object
  find_error error_root = do
    error_obj ← json.object_get_ex error_root "error"
    json.object_get_ex error_obj "message"

  -- The text for the user after an HTTP error.
  unfoldable pub error_text : ℕ → Bytes → Bytes → Bytes
  error_text http_code error_msg response =
      if http_code == 403
      then safe_strncpy response (codes "API quota exceeded. Please check your billing settings.")
          max_ai_response_size
      else if http_code == 429
      then safe_strncpy response (codes "API rate limit exceeded. Please try again later.")
          max_ai_response_size
      else if http_code == 401
      then safe_strncpy response (codes "Invalid API key. Please check your configuration.")
          max_ai_response_size
      else print_into response (codes "API Error: " ++ c_str error_msg) max_ai_response_size

  -- glibc prints a NULL string as "(null)".
  unfoldable pub read_error : ℕ → Bytes → AiResponse → AiResponse
  read_error http_code memory r = elim (json.tokener_parse (c_str memory) >>= find_error) [
    | none ↦ r
    | some message ↦ record r {
      response = error_text http_code (or_null (json.get_string message)) r.response;
    }
  ]

  -- `strncpy` of a NULL text is undefined: `none`.
  unfoldable pub copy_text : Option Bytes → AiResponse → Option AiResponse
  copy_text none r = none
  copy_text (some ai_text) r =
      some
        (record { response = safe_strncpy r.response ai_text max_ai_response_size; success = true })

  unfoldable pub read_success : Bytes → AiResponse → Option AiResponse
  read_success memory r = elim (json.tokener_parse (c_str memory) >>= find_text) [
    | none ↦ some r
    | some text ↦ copy_text (json.get_string text) r
  ]

  -- With HTTP 200; a body that is missing leaves the response as it is.
  unfoldable pub finish_call : Option Bytes → AiResponse → Option (Bool × AiResponse)
  finish_call none r = some (r.success, r)
  finish_call (some memory) r = read_success memory r >>= λ read. some (read.success, read)

  abbrev pub fail_call : ℕ → Option Bytes → AiResponse → AiResponse
  fail_call http_code none r = r
  fail_call http_code (some memory) r = read_error http_code memory r

  -- After the transfer: whether 0 is returned, and the response.
  unfoldable pub read_transfer : Transfer → AiResponse → Option (Bool × AiResponse)
  read_transfer transfer r =
      let memory = (collect transfer.chunks (record { memory = none; size = 0 })).memory in
      let read = finish_call memory r in
      if transfer.succeeded
      then (if transfer.http_code == 200
          then read
          else some (false, fail_call transfer.http_code memory r))
      else some (false, r)

  unfoldable pub call_gemini_api :
      Curl → Bytes → Bytes → Bytes → Bytes → AiResponse → Option (Bool × AiResponse)
  call_gemini_api curl api_key personality language conversation r =
      if curl.easy_init
      then elim (generate_gemini_request_json personality language conversation
          (max_message_size * 4)) [
            | none ↦ some (false, r)
            | some json_request ↦ read_transfer (curl.easy_perform (url api_key) json_request) r
          ]
      else some (false, r)

  unfoldable pub generate_ai_response :
      Curl → Bytes → Bytes → Bytes → Bytes → Option (Bool × AiResponse)
  generate_ai_response curl api_key personality language conversation =
      call_gemini_api curl api_key personality language conversation
        (record { response = cleared max_ai_response_size; success = false })
