-- ===== src/Server/Reply.antt =====
-- cmd/server/main.go: the answers of the handlers, and reading a request body.
use download_gateway.Prelude.{ℕ, Str, str, ◌++◌, ◌/◌, ◌^◌}
use download_gateway.Prelude.Strings.{itoa}

-- A JSON answer by its status and body; `error` is the body of writeError.
pub data Reply (B : Type 0) : Type 0 where
  error : ℕ → Str → Reply B
  json : ℕ → B → Reply B
  no_content : Reply B

-- What decoding the capped body gives; the decoder and the cap are Go's.
pub data Decoded (A : Type 0) : Type 0 where
  value : A → Decoded A
  too_large corrupt_base64 invalid : Decoded A

-- decodeJSON: the value, or the answer that it wrote itself.
pub data Body (A B : Type 0) : Type 0 where
  body : A → Body A B
  answered : Reply B → Body A B

unfoldable pub decode_json : {A B : Type 0} → ℕ → Decoded A → Body A B
decode_json limit (value a) = body a
decode_json limit too_large =
    answered (error 413 (str "request body exceeds " ++ itoa (limit / 2 ^ 20) ++ str " MiB"))
decode_json limit corrupt_base64 = answered (error 400 (str "payload_b64 is not valid base64"))
decode_json limit invalid = answered (error 400 (str "invalid JSON body"))
