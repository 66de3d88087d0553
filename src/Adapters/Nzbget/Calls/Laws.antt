-- ===== src/Adapters/Nzbget/Calls/Laws.antt =====
-- The body that is streamed is the body that would have been marshalled.
use native.Mathlib.Omega.{arith}
use mathlib.Core.List.{append_assoc}
use download_gateway.Prelude.{
  ◌+◌, ◌<◌, Str, str, List, [], ◌∷◌, ◌++◌, ◌≡◌, refl, ap, ◌∙◌, All, length, length-append,
}
use download_gateway.Prelude.Strings.{join}
use download_gateway.Prelude.Base64.{encode, encoded_len, length-encode, IsLetter, encode-IsLetter}
use download_gateway.Adapters.Client.{Nzbget}
use download_gateway.Adapters.Nzbget.Json.{
  Param, text, marshal, marshal_tail, marshal_all, marshal_call,
}
use download_gateway.Adapters.Nzbget.Calls.{
  Endpoint, send, call, append_head, append_end, append_content,
}

-- json.Marshal puts a text of base64 letters between quotation marks as it is.
abbrev pub QuotesLetters : (Str → Str) → Type 0
QuotesLetters quote = (s : Str) → All IsLetter s → quote s ≡ b'"' ∷ s ++ b'"' ∷ []

marshal_tail-two :
    (quote : Str → Str) (a b p : Param) (ps : List Param)
    → marshal_tail quote (a ∷ b ∷ p ∷ ps)
      ≡ marshal quote a ++ (b',' ∷ (marshal quote b ++ (b',' ∷ marshal_tail quote (p ∷ ps))))
unfolding marshal_tail join
marshal_tail-two quote a b p ps = simp append_assoc

module _ {W : Type 0} (rpc : Endpoint W) (n : Nzbget)
    (plain_letters : QuotesLetters rpc.quote) where
  append_body : Str → Str → List Param → Str
  append_body filename content rest =
      append_head rpc n filename ++ (encode content ++ append_end rpc n rest)

  append_body-marshal :
      (filename content : Str) (p : Param) (ps : List Param)
      → All (λ c. c < 256) content
      → append_body filename content (p ∷ ps)
        ≡ marshal_call rpc.quote (str "append") (text filename ∷ text (encode content) ∷ p ∷ ps)
  unfolding append_body append_head append_end marshal_call marshal_all marshal
  append_body-marshal filename content p ps h =
      rw
        (
          plain_letters (str "append") (refl, (refl, (refl, (refl, (refl, (refl, tt)))))),
          marshal_tail-two rpc.quote (text filename) (text (encode content)) p ps,
          plain_letters (encode content) (encode-IsLetter content h),
        )
        (simp append_assoc)

  -- appendContent sends the length and the bytes that call would marshal, and returns what call returns,
  -- if the content is bytes and a parameter follows it.
  pub append_content-call :
      (filename content : Str) (p : Param) (ps : List Param) (w : W)
      → All (λ c. c < 256) content
      → append_content rpc n filename content (p ∷ ps) w
        ≡ call rpc n (str "append") (text filename ∷ text (encode content) ∷ p ∷ ps) w
  unfolding append_content call append_body
  append_content-call filename content p ps w h =
      let same = append_body-marshal filename content p ps h in
      let size : length (append_head rpc n filename)
            + encoded_len (length content)
            + length (append_end rpc n (p ∷ ps))
          ≡ length (append_body filename content (p ∷ ps)) =
        omega (
          arith,
          length-append (append_head rpc n filename) (encode content ++ append_end rpc n (p ∷ ps)),
          length-append (encode content) (append_end rpc n (p ∷ ps)),
          length-encode content,
        ) in
      ap (λ k. send rpc n (str "append") k (append_body filename content (p ∷ ps)) w) size
      ∙ ap (λ body. send rpc n (str "append") (length body) body w) same
