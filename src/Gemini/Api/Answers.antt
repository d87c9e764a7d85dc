-- ===== src/Gemini/Api/Answers.antt =====
-- What the client makes of the answer of the API.
use progetto.Prelude.{
  ◌==◌, if_both, append_assoc, sym, ◌∙◌, take, ◌>>=◌, refl, length-append, none, ap, [], arith,
  length, true, ◌∷◌, false, ◌++◌, some, Bool, Option, Bytes, ◌≡◌, ℕ,
}
use progetto.Gemini.Api.{
  url, Transfer, read_transfer, Curl, call_gemini_api, read_success, finish_call, copy_text,
  find_text, fail_call, AiResponse, read_error, Json, generate_ai_response,
}
use progetto.Gemini.Request.{generate_gemini_request_json, CurlResponse, my_curl_write_callback}
use progetto.CLib.Memory.{c_str}
use progetto.Config.{max_ai_response_size}
use progetto.Utils.Copying.{safe_strncpy_lem}
use progetto.Utils.{safe_strncpy}
use progetto.Protocol.Receive.{cleared}
use progetto.Protocol.Messages.{length-cleared}

take_front : (m s : Bytes) → take (length m) (m ++ s) ≡ m
take_front [] s = refl
take_front (c ∷ m) s = ap (◌∷◌ c) (take_front m s)

-- What was received, with its terminator.
pub record Gathers (m : Bytes) (r : CurlResponse) : Type 0 where
  pub memory : r.memory ≡ some (m ++ 0 ∷ [])
  pub size : r.size ≡ length m

-- After a successful callback the memory is what it was and the new contents, terminated.
pub my_curl_write_callback-Gathers :
    (contents m : Bytes) (r : CurlResponse)
    → Gathers m r
    → Gathers (m ++ contents) (my_curl_write_callback contents true r).1
unfolding my_curl_write_callback
my_curl_write_callback-Gathers contents m r g = record {
  memory =
      rw (g.memory, g.size)
        (ap some (
          ap (λ t. t ++ (contents ++ 0 ∷ [])) (take_front m (0 ∷ []))
          ∙ sym (append_assoc m contents (0 ∷ []))));
  size = omega (arith, g.size, length-append {0} m contents);
}

module _ (json : Json) where
  -- An answer with its text is returned with 0, and cut to its array; without one it is -1, and
  -- the response is not marked as a success; a JSON null as the text crashes the server.
  pub data Generated (o : Option (Bool × AiResponse)) : Type 0 where
    answered :
        (memory s : Bytes) (root text : json.Object) (r : AiResponse)
        → json.tokener_parse (c_str memory) ≡ some root
        → find_text json root ≡ some text
        → json.get_string text ≡ some s
        → o ≡ some (true, r)
        → r.success ≡ true
        → c_str r.response ≡ take 2047 (c_str s)
        → length r.response ≡ max_ai_response_size
        → Generated o
    silent : (r : AiResponse) → o ≡ some (false, r) → r.success ≡ false → Generated o
    crashed :
        (memory : Bytes) (root text : json.Object)
        → json.tokener_parse (c_str memory) ≡ some root
        → find_text json root ≡ some text
        → json.get_string text ≡ none
        → o ≡ none
        → Generated o

  bind-some :
      (o : Option json.Object) {text : json.Object}
      → (o >>= find_text json) ≡ some text
      → (root : json.Object) × (o ≡ some root) × (find_text json root ≡ some text)
  bind-some none h = cc
  bind-some (some root) h = (root, refl, h)

  read_error-success :
      (http_code : ℕ) (memory : Option Bytes) (r : AiResponse)
      → (fail_call json http_code memory r).success ≡ r.success
  unfolding read_error
  read_error-success http_code none r = refl
  read_error-success http_code (some m) r = ground arith

  module _ (memory : Bytes) (r : AiResponse) (fresh : r.success ≡ false)
      (size : length r.response ≡ max_ai_response_size) where
    copy_text-Generated :
        (root text : json.Object) (o : Option Bytes)
        → json.tokener_parse (c_str memory) ≡ some root
        → find_text json root ≡ some text
        → json.get_string text ≡ o
        → Generated (copy_text json o r >>= λ read. some (read.success, read))
    unfolding copy_text
    copy_text-Generated root text none parsed found e = crashed memory root text parsed found e refl
    copy_text-Generated root text (some s) parsed found e =
        let copied =
          safe_strncpy_lem r.response s max_ai_response_size (omega arith) (omega (arith, size)) in
        answered memory s root text
          (record { response = safe_strncpy r.response s max_ai_response_size; success = true })
          parsed found e refl refl copied.0 (copied.1 ∙ size)

    read_success-Generated :
        (o : Option json.Object)
        → (json.tokener_parse (c_str memory) >>= find_text json) ≡ o
        → Generated (read_success json memory r >>= λ read. some (read.success, read))
    unfolding read_success
    read_success-Generated none e = rw (read_success, e) (silent r (rw fresh) fresh)
    read_success-Generated (some text) e =
        let (root, parsed, found) = bind-some (json.tokener_parse (c_str memory)) e in
        rw (read_success, e) (copy_text-Generated root text _ parsed found refl)

  module _ (r : AiResponse) (fresh : r.success ≡ false)
      (size : length r.response ≡ max_ai_response_size) where
    finish_call-Generated : (memory : Option Bytes) → Generated (finish_call json memory r)
    unfolding finish_call
    finish_call-Generated none = silent r (rw fresh) fresh
    finish_call-Generated (some m) =
        unfold finish_call in read_success-Generated m r fresh size _ refl

    read_transfer-Generated : (transfer : Transfer) → Generated (read_transfer json transfer r)
    unfolding read_transfer
    read_transfer-Generated transfer =
        if_both Generated transfer.succeeded
          (if_both Generated (transfer.http_code == 200) (finish_call-Generated _)
            (silent _ refl (read_error-success transfer.http_code _ r ∙ fresh)))
          (silent r refl fresh)

    call_gemini_api-Generated :
        (curl : Curl) (api_key personality language conversation : Bytes)
        → Generated (call_gemini_api json curl api_key personality language conversation r)
    unfolding call_gemini_api
    call_gemini_api-Generated curl api_key personality language conversation =
        if_both Generated curl.easy_init
          (requested (generate_gemini_request_json personality language conversation _))
          (silent r refl fresh)
      where
        requested :
            (o : Option Bytes)
            → Generated (elim o [
              | none ↦ some (false, r)
              | some json_request ↦
                  read_transfer json (curl.easy_perform (url api_key) json_request) r
            ])
        requested none = silent r refl fresh
        requested (some request) = read_transfer-Generated (curl.easy_perform (url api_key) request)

  pub generate_ai_response-Generated :
      (curl : Curl) (api_key personality language conversation : Bytes)
      → Generated (generate_ai_response json curl api_key personality language conversation)
  unfolding generate_ai_response
  generate_ai_response-Generated curl api_key personality language conversation =
      call_gemini_api-Generated
        (record { response = cleared max_ai_response_size; success = false }) refl
        (length-cleared max_ai_response_size) curl api_key personality language conversation
