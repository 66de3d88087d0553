-- ===== src/Adapters/Failure.antt =====
-- internal/adapters/responses.go and endpoint.go: errors as values, and their public rendering.
pub mod Laws
pub mod Replace
use download_gateway.Prelude.{
  ℕ, zero, suc, ◌+◌, ◌*◌, ◌≤◌, Bool, Str, str, Option, none, some, List, [], ◌∷◌, ◌++◌,
  if◌then◌else◌, is_empty, leb, length, take, drop,
}
use download_gateway.Prelude.Strings.{has_prefix, trim_space, itoa}
use download_gateway.Prelude.Utf8.{drop_runes, cut_back}
use download_gateway.Adapters.Spec.{GoLib}
use download_gateway.Adapters.Prepare.{is_control}

-- An error and the errors that it wraps: *StatusError with Op, Code and Detail; *url.Error with Op,
-- URL and Err; fmt.Errorf("<text>%w", err); ErrPayloadUnsupported; any other error, by its text.
pub data Failure : Type 0 where
  status_error : Str → ℕ → Str → Failure
  url_error : Str → Str → Failure → Failure
  wrapped : Str → Failure → Failure
  payload_unsupported : Failure
  plain : Str → Failure

-- The result of a call that returns a value and an error.
pub data Outcome (A : Type 0) : Type 0 where
  ok : A → Outcome A
  fail : Failure → Outcome A

abbrev pub max_response : ℕ
max_response = 1_048_576

abbrev pub max_list_response : ℕ
max_list_response = 32 * 1_048_576

abbrev pub max_error_detail : ℕ
max_error_detail = 256

-- The cut that truncate makes of a text.
unfoldable pub truncate : Str → ℕ → Str
truncate s n = if leb (length s) n then s else take (cut_back s n) s

module _ (lib : GoLib) where
  -- strconv.Quote, the verb %q
  unfoldable pub quoted : Str → Str
  quoted s = b'"' ∷ lib.escape s ++ b'"' ∷ []

  -- Error()
  unfoldable pub error_text : Failure → Str
  unfolding quoted
  error_text (status_error op code detail) =
      if is_empty detail
      then op ++ str ": " ++ itoa code
      else op ++ str ": " ++ itoa code ++ str " " ++ quoted detail
  error_text (url_error op url inner) =
      (op ++ str " ") ++ (quoted url ++ (str ": " ++ error_text inner))
  error_text (wrapped text inner) = text ++ error_text inner
  error_text payload_unsupported = str "this client type does not accept a payload"
  error_text (plain text) = text

-- errors.As(err, &se)
unfoldable pub find_status : Failure → Option (Str × ℕ)
find_status (status_error op code detail) = some (op, code)
find_status (url_error op url inner) = find_status inner
find_status (wrapped text inner) = find_status inner
find_status payload_unsupported = none
find_status (plain text) = none

pub record UrlError : Type 0 where
  pub op : Str
  pub url : Str
  pub inner : Failure

-- errors.As(err, &ue)
unfoldable pub find_url : Failure → Option UrlError
find_url (status_error op code detail) = none
find_url (url_error op url inner) = some (record { op = op; url = url; inner = inner })
find_url (wrapped text inner) = find_url inner
find_url payload_unsupported = none
find_url (plain text) = none

-- strings.Replace(s, old, by, 1)
unfoldable pub replace_first : Str → Str → Str → Str
replace_first old by [] = if is_empty old then by else []
replace_first old by (c ∷ s) =
    let later = c ∷ replace_first old by s in
    if has_prefix (c ∷ s) old then by ++ drop (length old) (c ∷ s) else later

-- The text without control characters, cut to the limit.
unfoldable pub clip : Str → Str
unfolding truncate
clip s = truncate (drop_runes is_control 0 s) max_error_detail

module _ (lib : GoLib) where
  -- The switch of PublicError.
  unfoldable pub public_text : Failure → Str
  unfolding find_status find_url
  public_text f = elim (find_status f) [
    | some (op, code) ↦ op ++ str ": HTTP " ++ itoa code
    | none ↦ elim (find_url f) [
      | some u ↦
          replace_first (error_text lib (url_error u.op u.url u.inner))
            (u.op ++ (str ": " ++ error_text lib u.inner)) (error_text lib f)
      | none ↦ error_text lib f
    ]
  ]

  -- PublicError; no caller passes a nil error.
  unfoldable pub public_error : Failure → Str
  unfolding clip public_text
  public_error f = clip (public_text f)
