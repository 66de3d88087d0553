-- ===== src/Adapters/Failure/Laws.antt =====
-- What an application may learn from a failure.
use native.Mathlib.Omega.{arith}
use mathlib.Core.List.{append_assoc}
use download_gateway.Prelude.{
  ℕ, ◌≤◌, Bool, false, Str, str, none, List, [], ◌∷◌, ◌++◌, ◌≡◌, refl, sym, ap, leb, length,
  Bool-cases, inl, inr,
}
use download_gateway.Prelude.Strings.{contains_byte, itoa}
use download_gateway.Prelude.Utf8.{drop_runes, cut_back}
use download_gateway.Prelude.Utf8.Laws.{
  contains_byte-drop_runes, contains_byte-take, length-take, cut_back-le,
}
use download_gateway.Adapters.Spec.{GoLib}
use download_gateway.Adapters.Prepare.{is_control}
use download_gateway.Adapters.Failure.Replace.{IsUnquoted, IsUnquoted-append, replace_first-append}
use download_gateway.Adapters.Failure.{
  Failure, status_error, url_error, wrapped, truncate, max_error_detail, quoted, error_text,
  find_status, find_url, replace_first, clip, public_text, public_error,
}

truncate-within : (s : Str) (n : ℕ) → length (truncate s n) ≤ n
unfolding truncate
truncate-within s n = elim (Bool-cases (leb (length s) n)) [
  | inl short ↦ rw short (ground arith)
  | inr long ↦ rw long (omega (arith, length-take (cut_back s n) s, cut_back-le s n))
]

truncate-clean :
    (p : ℕ → Bool) (s : Str) (n : ℕ)
    → contains_byte p s ≡ false
    → contains_byte p (truncate s n) ≡ false
unfolding truncate
truncate-clean p s n h = elim (Bool-cases (leb (length s) n)) [
  | inl short ↦ rw short h
  | inr long ↦ rw long (contains_byte-take p (cut_back s n) s h)
]

high_control : (c : ℕ) → 0x80 ≤ c → is_control c ≡ false
unfolding is_control
high_control c h = ground arith

-- Whatever went wrong, what is told is at most 256 bytes long and has no control character.
pub public_error-IsClean :
    (lib : GoLib) (f : Failure)
    → (length (public_error lib f) ≤ max_error_detail)
      × (contains_byte is_control (public_error lib f) ≡ false)
unfolding public_error clip
public_error-IsClean lib f = (
  truncate-within (drop_runes is_control 0 (public_text lib f)) max_error_detail,
  truncate-clean is_control _ max_error_detail
      (contains_byte-drop_runes is_control 0 (public_text lib f) high_control tt),
)

-- A failure in the texts that the adapters put before it.
abbrev pub around : List Str → Failure → Failure
around [] f = f
around (p ∷ ps) f = wrapped p (around ps f)

abbrev pub texts : List Str → Str
texts [] = []
texts (p ∷ ps) = p ++ texts ps

abbrev pub AreUnquoted : List Str → Type 0
AreUnquoted [] = Unit
AreUnquoted (p ∷ ps) = IsUnquoted p × AreUnquoted ps

IsUnquoted-texts : (ps : List Str) → AreUnquoted ps → IsUnquoted (texts ps)
IsUnquoted-texts [] h = unfold contains_byte in refl
IsUnquoted-texts (p ∷ ps) h = IsUnquoted-append p (texts ps) h.0 (IsUnquoted-texts ps h.1)

error_text-around :
    (lib : GoLib) (ps : List Str) (f : Failure)
    → error_text lib (around ps f) ≡ texts ps ++ error_text lib f
unfolding error_text
error_text-around lib [] f = refl
error_text-around lib (p ∷ ps) f =
    rw (error_text-around lib ps f) (sym (append_assoc p (texts ps) (error_text lib f)))

find_status-around : (ps : List Str) (f : Failure) → find_status (around ps f) ≡ find_status f
unfolding find_status
find_status-around [] f = refl
find_status-around (p ∷ ps) f = find_status-around ps f

find_url-around : (ps : List Str) (f : Failure) → find_url (around ps f) ≡ find_url f
unfolding find_url
find_url-around [] f = refl
find_url-around (p ∷ ps) f = find_url-around ps f

public_text-status :
    (lib : GoLib) (ps : List Str) (op : Str) (code : ℕ) (detail : Str)
    → public_text lib (around ps (status_error op code detail)) ≡ op ++ str ": HTTP " ++ itoa code
unfolding public_text find_status
public_text-status lib ps op code detail =
    rw (find_status-around ps (status_error op code detail), public_text) refl

replace_url :
    (lib : GoLib) (pre op url : Str) (inner : Failure)
    → IsUnquoted pre
    → IsUnquoted op
    → replace_first
        (error_text lib (url_error op url inner))
        (op ++ (str ": " ++ error_text lib inner))
        (pre ++ error_text lib (url_error op url inner))
      ≡ pre ++ (op ++ (str ": " ++ error_text lib inner))
unfolding error_text quoted
replace_url lib pre op url inner h k =
    replace_first-append pre (op ++ str " ")
      ((lib.escape url ++ b'"' ∷ []) ++ (str ": " ++ error_text lib inner))
      (op ++ (str ": " ++ error_text lib inner)) h
      (IsUnquoted-append op (str " ") k (unfold contains_byte in refl))

public_text-url :
    (lib : GoLib) (ps : List Str) (op url : Str) (inner : Failure)
    → AreUnquoted ps
    → IsUnquoted op
    → find_status inner ≡ none
    → public_text lib (around ps (url_error op url inner))
      ≡ texts ps ++ (op ++ (str ": " ++ error_text lib inner))
unfolding public_text find_status find_url
public_text-url lib ps op url inner h k n =
    let u : Failure = url_error op url inner in
    rw (find_status-around ps u, n, find_url-around ps u, public_text)
      (rw (error_text-around lib ps u)
        (replace_url lib (texts ps) op url inner (IsUnquoted-texts ps h) k))

-- Of a status that an endpoint answered, only the call and the code are told, not the body that it
-- chose. Of a request that got no answer, the texts before it, the method and the text of the error
-- inside are told, which may name the host, but not the URL that the error of the request carries.
-- The texts that the adapters put before an error and the method have no quotation mark, and the error
-- inside wraps no status.
pub public_error-hides :
    (lib : GoLib) (ps : List Str) (op : Str) (inner : Failure)
    → AreUnquoted ps
    → IsUnquoted op
    → find_status inner ≡ none
    → ((code : ℕ) (detail : Str)
        → public_error lib (around ps (status_error op code detail))
          ≡ clip (op ++ str ": HTTP " ++ itoa code))
      × ((url : Str)
          → public_error lib (around ps (url_error op url inner))
            ≡ clip (texts ps ++ (op ++ (str ": " ++ error_text lib inner))))
unfolding public_error
public_error-hides lib ps op inner h k n = (
  λ code detail. ap clip (public_text-status lib ps op code detail),
  λ url. ap clip (public_text-url lib ps op url inner h k n),
)
