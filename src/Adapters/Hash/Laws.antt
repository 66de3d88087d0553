-- ===== src/Adapters/Hash/Laws.antt =====
-- Every accepted configuration builds an adapter that is bound by the endpoint policy.
use download_gateway.Prelude.{Str, true, some, ◌≡◌, refl}
use download_gateway.Adapters.Client.{Adapter, is_guarded}
use download_gateway.Adapters.Spec.{
  ClientSpec, TypeInfo, GoLib, lookup_type, lookup_type-elim, build_nzbget, build_odownloader,
  build_qbittorrent,
}
use download_gateway.Adapters.Prepare.{prepare_spec, ok}
use download_gateway.Adapters.Prepare.Laws.{prepare_spec-IsPrepared}
use download_gateway.Adapters.Hash.{build_client}

build-guarded :
    (s : ClientSpec) (name : Str) (ti : TypeInfo)
    → lookup_type name ≡ some ti
    → is_guarded (ti.build s) ≡ true
unfolding build_nzbget build_odownloader build_qbittorrent
build-guarded s = lookup_type-elim (λ ti. is_guarded (ti.build s) ≡ true) (refl, (refl, (refl, tt)))

-- Building the client of an accepted configuration does not panic, and gives an adapter whose
-- requests go through the policy for pushed endpoints.
pub build_client-prepare_spec :
    (lib : GoLib) (raw s : ClientSpec)
    → prepare_spec lib raw ≡ ok s
    → (ad : Adapter) × (build_client s ≡ some ad) × (is_guarded ad ≡ true)
unfolding build_client
build_client-prepare_spec lib raw s h =
    let (p, _) = prepare_spec-IsPrepared lib raw s h in
    (
      p.type_info.build s,
      rw (p.known, build_client) refl,
      build-guarded s s.type_name p.type_info p.known,
    )
