-- ===== src/Adapters/Hash.antt =====
-- internal/adapters/clients.go: the fingerprint of a configuration, and building its adapter.
pub mod Laws
pub mod Frames
use download_gateway.Prelude.{
  ℕ, Str, str, Option, none, some, List, [], ◌∷◌, ◌++◌, length, ◌≡◌, refl, arith,
}
use download_gateway.Prelude.Strings.{itoa, join}
use download_gateway.Adapters.Client.{Adapter}
use download_gateway.Adapters.Spec.{ClientSpec, GoLib, lookup_type}
use download_gateway.Adapters.Prepare.{Checked, prepare_spec, ◌>>=◌, ok}

-- One field of the preimage: "%d:%s|" with the length of the field.
unfoldable pub frame : Str → Str
frame f = itoa (length f) ++ b':' ∷ f ++ b'|' ∷ []

unfoldable pub frames : List Str → Str
frames [] = []
frames (f ∷ fs) = frame f ++ frames fs

unfoldable pub hash_fields : ClientSpec → List Str
hash_fields s =
    s.type_name
    ∷ s.base_url
    ∷ s.auth
    ∷ s.username
    ∷ s.secret
    ∷ s.category
    ∷ s.save_path
    ∷ join s.protocols (str ",")
    ∷ []

unfoldable pub spec_hash : GoLib → ClientSpec → Str
unfolding frames hash_fields
spec_hash lib s = lib.sha256 (frames (hash_fields s))

-- `none` is the panic of a call through the nil build function of an unknown type.
unfoldable pub build_client : ClientSpec → Option Adapter
build_client s = elim (lookup_type s.type_name) [ none ↦ none | some ti ↦ some (ti.build s) ]

-- What NewClient returns of its adapter and normalised spec.
unfoldable pub new_client : GoLib → ClientSpec → Checked (Option Adapter × ClientSpec)
unfolding build_client
new_client lib spec = do s ← prepare_spec lib spec; ok (build_client s, s)
