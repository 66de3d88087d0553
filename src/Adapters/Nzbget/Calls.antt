-- ===== src/Adapters/Nzbget/Calls.antt =====
-- internal/adapters/nzbget.go: one call of the JSON-RPC API.
pub mod Laws
use download_gateway.Prelude.{
  ℕ, ◌+◌, Bool, not, ◌||◌, Str, str, ◌==◌, Option, none, some, List, [], ◌∷◌, ◌++◌, if◌then◌else◌,
  is_empty, eqb, length,
}
use download_gateway.Prelude.Int.{ℤ, pos}
use download_gateway.Prelude.Strings.{itoa}
use download_gateway.Prelude.Base64.{encode, encoded_len}
use download_gateway.Adapters.Client.{Nzbget}
use download_gateway.Adapters.Failure.{
  Failure, plain, Outcome, ok, fail, max_response, max_list_response, max_error_detail, truncate,
}
use download_gateway.Adapters.Http.{
  post_, raw, Response, Request, Call, raise, ◌>>=◌, proceed, lift, new_status_error, Decoder,
  decode_capped,
}
use download_gateway.Adapters.Nzbget.{Group, History}
use download_gateway.Adapters.Nzbget.Json.{Param, text, number, flag, marshal_tail, marshal_call}

-- The answer to a call: the message of its error, and the JSON text of its result.
pub record Answer : Type 0 where
  pub error : Option Str
  pub result : Str

-- The answer to `status`; `servers` says of each news server whether it is active.
pub record Stats : Type 0 where
  pub download_rate : ℤ
  pub server_paused : Bool
  pub download2_paused : Bool
  pub free_disk_lo : ℤ
  pub free_disk_hi : ℤ
  pub free_disk_mb : ℤ
  pub post_job_count : ℤ
  pub quota_reached : Bool
  pub servers : List Bool

-- What the calls go through: the HTTP client; json.Marshal on a string; the decoder of an answer, and
-- json.Unmarshal on each kind of result.
pub record Endpoint (W : Type 0) : Type 0 where
  pub exchange : Request → Call W Response
  pub quote : Str → Str
  pub answer : Decoder Answer
  pub groups : Str → Outcome (List Group)
  pub own_groups : Str → Outcome (List Group)
  pub history : Str → Outcome (List History)
  pub nzb_id : Str → Option ℤ
  pub version : Str → Option Str
  pub stats : Str → Outcome Stats

rpc_result : Str → Answer → Outcome Str
rpc_result method a = elim a.error [
  | some message ↦
      fail (plain (str "nzbget " ++ (method ++ (str ": " ++ truncate message max_error_detail))))
  | none ↦ ok a.result
]

rpc_answered : Str → Outcome Answer → Outcome Str
unfolding rpc_result
rpc_answered method (fail f) = fail f
rpc_answered method (ok a) = rpc_result method a

unfoldable pub answer_limit : Str → ℕ
answer_limit method =
    if method == str "listgroups" || method == str "history"
    then max_list_response
    else max_response

-- The result in the HTTP answer.
unfoldable pub received : Decoder Answer → Str → Response → Outcome Str
unfolding rpc_answered answer_limit
received decode method resp =
    if not (eqb resp.status 200)
    then fail (new_status_error (str "nzbget " ++ method) resp)
    else rpc_answered method (decode_capped (answer_limit method) decode resp.body)

-- Request.SetBasicAuth
unfoldable pub basic_auth : Nzbget → List (Str × Str)
basic_auth n =
    if is_empty n.username
    then []
    else (str "Authorization", str "Basic " ++ encode (n.username ++ (b':' ∷ n.password))) ∷ []

module _ {W : Type 0} (rpc : Endpoint W) (n : Nzbget) where
  open rpc use {exchange, quote, answer}

  -- send, with the length that it declares and the bytes that it sends
  unfoldable pub send : Str → ℕ → Str → Call W Str
  unfolding basic_auth received
  send method size body = do
    resp ← exchange (record {
      method = post_;
      url = n.base_url ++ str "/jsonrpc";
      query = [];
      headers =
          (str "Content-Length", itoa size)
          ∷ (str "Content-Type", str "application/json")
          ∷ basic_auth n;
      content = raw body;
    })
    lift (received answer method resp)

  unfoldable pub call : Str → List Param → Call W Str
  unfolding send
  call method params = let body = marshal_call quote method params in send method (length body) body

  -- The literal parts of appendContent's body.
  unfoldable pub append_head : Str → Str
  append_head filename =
      str "{\"id\":1,\"method\":\"append\",\"params\":[" ++ (quote filename ++ str ",\"")

  unfoldable pub append_end : List Param → Str
  append_end rest = str "\"," ++ (marshal_tail quote rest ++ str "}")

  -- appendContent: the reader of the content is Nzbget/Upload.
  unfoldable pub append_content : Str → Str → List Param → Call W Str
  unfolding send append_head append_end
  append_content filename content rest =
      send (str "append")
        (length (append_head filename) + encoded_len (length content) + length (append_end rest))
        (append_head filename ++ (encode content ++ append_end rest))
