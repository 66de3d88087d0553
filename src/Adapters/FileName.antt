-- ===== src/Adapters/FileName.antt =====
-- internal/adapters/adapters.go: payloadFileName.
pub mod Laws
use mathlib.Core.List.{reverse}
use download_gateway.Prelude.{
  ℕ, ◌+◌, Bool, ◌||◌, ◌&&◌, Str, str, List, [], ◌∷◌, ◌++◌, if◌then◌else◌, is_empty, eqb, leb, map,
}
use download_gateway.Prelude.Strings.{has_prefix, trim_space}
use download_gateway.Prelude.Utf8.{drop_runes, between}
use download_gateway.Adapters.Prepare.{is_control}

unfoldable pub is_slash : ℕ → Bool
is_slash c = eqb c b'/' || eqb c b'\\'

-- What follows the last slash or backslash.
unfoldable pub after_slash : Str → Str → Str
unfolding is_slash
after_slash cur [] = cur
after_slash cur (c ∷ s) = after_slash (if is_slash c then s else cur) s

-- The function `clean`.
unfoldable pub clean : Str → Str
unfolding after_slash
clean s = trim_space (drop_runes is_control 0 (after_slash s s))

-- strings.ToLower on ASCII. The letters outside it that have a lower case inside go to i and k,
-- which stand in no extension here.
abbrev pub lower : ℕ → ℕ
lower c = if between b'A' b'Z' c then c + 32 else c

-- strings.HasSuffix
unfoldable pub has_suffix : Str → Str → Bool
has_suffix s t = has_prefix (reverse s) (reverse t)

-- The first of the name, the title and "download" of which something is left.
unfoldable pub out_of : Str → Str → Str
unfolding clean
out_of name title =
    let named = clean name in
    let titled = if is_empty named then clean title else named in
    if is_empty titled then str "download" else titled

unfoldable pub payload_file_name : Str → Str → Str → Str
unfolding out_of has_suffix
payload_file_name name title ext =
    let out = out_of name title in if has_suffix (map lower out) ext then out else out ++ ext
