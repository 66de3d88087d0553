-- ===== src/Tests/Adapters.antt =====
-- What the clients are asked and what they answer.
use download_gateway.Prelude.{
  ℕ, ◌+◌, ◌≤◌, true, Str, str, [], ◌∷◌, ◌++◌, ◌≡◌, ◌↔◌, refl, arith, All, length, map,
}
use download_gateway.Prelude.Strings.{contains_byte, itoa}
use download_gateway.Prelude.Base64.{encode, encoded_len}
use download_gateway.Adapters.Prepare.{is_control}
use download_gateway.Adapters.Failure.{
  status_error, url_error, plain, error_text, clip, public_error, find_status,
}
use download_gateway.Adapters.Failure.Laws.{around, texts, public_error-hides}
use download_gateway.Adapters.Endpoint.{v4, refused_addr, Origin, requested}
use download_gateway.Adapters.Endpoint.Laws.{
  IsForbidden, refused_addr_iff, IsSameOrigin, requested-IsSameOrigin,
}
use download_gateway.Adapters.Nzbget.Upload.{base64_chunk, read_each}
use download_gateway.Adapters.Nzbget.Upload.Laws.{read_each-encode}
use download_gateway.Adapters.FileName.{is_slash, lower, payload_file_name, has_suffix}
use download_gateway.Adapters.FileName.Laws.{IsSafe, payload_file_name-IsSafe}
use download_gateway.Tests.Data.{lib}

refused_addr_iff_example : (refused_addr (v4 0xA9FE_A9FE) ≡ true) ↔ IsForbidden (v4 0xA9FE_A9FE)
refused_addr_iff_example = refused_addr_iff (v4 0xA9FE_A9FE)

abbrev origin : Origin
origin = record { scheme = str "http"; host = str "h" }

requested-IsSameOrigin_example :
    All (IsSameOrigin (λ s. s) origin) (requested (λ s. s) origin 1 (origin ∷ origin ∷ []))
    × (1 + length (requested (λ s. s) origin 1 (origin ∷ origin ∷ [])) ≤ 10)
requested-IsSameOrigin_example =
    requested-IsSameOrigin (λ s. s) origin 1 (origin ∷ origin ∷ []) (ground arith)

-- Four bytes, read three at a time.
read_each-encode_example :
    (read_each base64_chunk
        (3 ∷ 3 ∷ 3 ∷ 3 ∷ 3 ∷ 3 ∷ 3 ∷ 3 ∷ [])
        (record { src = str "nzb!"; out = [] })
      ≡ encode (str "nzb!"))
    × (length (encode (str "nzb!")) ≡ encoded_len (length (str "nzb!")))
read_each-encode_example =
    read_each-encode (str "nzb!") (3 ∷ 3 ∷ 3 ∷ 3 ∷ 3 ∷ 3 ∷ 3 ∷ 3 ∷ []) (ground arith) (ground arith)

extension-IsSafe : IsSafe (str ".nzb")
extension-IsSafe = unfold contains_byte is_slash is_control in (refl, refl)

payload_file_name-IsSafe_example :
    IsSafe (payload_file_name (str "../a\\b.NZB") (str "t") (str ".nzb"))
    × (has_suffix
          (map lower (payload_file_name (str "../a\\b.NZB") (str "t") (str ".nzb")))
          (str ".nzb")
        ≡ true)
payload_file_name-IsSafe_example =
    payload_file_name-IsSafe (str "../a\\b.NZB") (str "t") (str ".nzb") extension-IsSafe refl

-- An add that got no answer, with the adapter's text before the error.
public_error-hides_example :
    ((code : ℕ) (detail : Str)
      → public_error lib
          (around (str "qbittorrent login: " ∷ []) (status_error (str "Post") code detail))
        ≡ clip (str "Post" ++ str ": HTTP " ++ itoa code))
    × ((url : Str)
        → public_error lib (
            around
              (str "qbittorrent login: " ∷ [])
              (url_error (str "Post") url (plain (str "EOF"))))
          ≡ clip (
              texts (str "qbittorrent login: " ∷ [])
              ++ (str "Post" ++ (str ": " ++ error_text lib (plain (str "EOF"))))))
public_error-hides_example =
    public_error-hides lib (str "qbittorrent login: " ∷ []) (str "Post") (plain (str "EOF"))
      (unfold contains_byte in (refl, tt)) (unfold contains_byte in refl)
      (unfold find_status in refl)
