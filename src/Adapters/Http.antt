-- ===== src/Adapters/Http.antt =====
-- The calls that the adapters make of their clients: requests and answers as values, over a state W
-- that stands for the network, the client at its end and the cookie jar; and decodeCapped and
-- newStatusError of internal/adapters/responses.go.
pub mod Laws
use download_gateway.Prelude.{
  ℕ, ◌+◌, ◌/◌, ◌<◌, Bool, true, false, not, ◌&&◌, ◌||◌, Str, str, Option, none, some, List, [], ◌∷◌,
  ◌++◌, if◌then◌else◌, is_empty, ltb, leb, length, take,
}
use download_gateway.Prelude.Strings.{trim_space, itoa}
use download_gateway.Adapters.Failure.{
  Failure, status_error, wrapped, plain, Outcome, ok, fail, max_error_detail,
}

pub data Method : Type 0 where
  get_ post_ delete_ : Method

-- A request's body: none; a form, urlencoded; a form with a file, multipart; or a text.
pub data Content : Type 0 where
  no_content : Content
  form : List (Str × Str) → Content
  multipart : List (Str × Str) → Str → Str → Content
  raw : Str → Content

-- The query is its pairs before url.Values.Encode.
pub record Request : Type 0 where
  pub method : Method
  pub url : Str
  pub query : List (Str × Str)
  pub headers : List (Str × Str)
  pub content : Content

pub record Response : Type 0 where
  pub status : ℕ
  pub body : Str

-- A call: what it returns, and the state after it.
abbrev pub Call : Type 0 → Type 0 → Type 0
Call W A = W → Outcome A × W

module _ {W : Type 0} where
  abbrev pub returns : {A : Type 0} → A → Call W A
  returns a w = (ok a, w)

  abbrev pub raise : {A : Type 0} → Failure → Call W A
  raise f w = (fail f, w)

  abbrev pub proceed : {A C : Type 0} → (A → Call W C) → Outcome A × W → Outcome C × W
  proceed next (ok a, w) = next a w
  proceed next (fail f, w) = (fail f, w)

  infixl 5 ◌>>=◌ ◌>>◌
  abbrev pub ◌>>=◌ : {A C : Type 0} → Call W A → (A → Call W C) → Call W C
  ◌>>=◌ call next w = proceed next (call w)

  abbrev pub ◌>>◌ : {C : Type 0} → Call W (Unit {0}) → Call W C → Call W C
  call >> next = call >>= λ _. next

  -- `if err != nil { return fmt.Errorf("<text>%w", err) }`
  abbrev pub named_result : {A : Type 0} → Str → Outcome A × W → Outcome A × W
  named_result text (ok a, w) = (ok a, w)
  named_result text (fail f, w) = (fail (wrapped text f), w)

  abbrev pub named : {A : Type 0} → Str → Call W A → Call W A
  named text call w = named_result text (call w)

  -- The error as a value.
  abbrev pub attempt : {A : Type 0} → Call W A → Call W (Outcome A)
  attempt call w = (ok (call w).0, (call w).1)

  abbrev pub lift : {A : Type 0} → Outcome A → Call W A
  lift r w = (r, w)

-- newStatusError: the start of the body, trimmed.
unfoldable pub new_status_error : Str → Response → Failure
new_status_error op r = status_error op r.status (trim_space (take max_error_detail r.body))

-- A decoder of encoding/json, with whether it read all that it was given.
abbrev pub Decoder : Type 0 → Type 0
Decoder A = Str → Outcome A × Bool

capped : {A : Type 0} → ℕ → ℕ → Outcome A × Bool → Outcome A
capped limit size (ok a, all_read) = ok a
capped limit size (fail f, all_read) =
    if all_read && ltb limit size
    then fail (plain (str "response exceeds " ++ (itoa (limit / 1_048_576) ++ str " MiB")))
    else fail f

-- decodeCapped: the reader holds limit + 1 bytes.
unfoldable pub decode_capped : {A : Type 0} → ℕ → Decoder A → Str → Outcome A
unfolding capped
decode_capped limit decode body = capped limit (length body) (decode (take (limit + 1) body))
