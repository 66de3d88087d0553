-- ===== src/Server/Console/Laws.antt =====
-- What an answer to a test of a client rests on.
use download_gateway.Prelude.{
  true, false, not, ◌&&◌, Str, str, Option, none, some, [], ◌≡◌, refl, sym, ap, ◌∙◌, ◌⊎◌, inl, inr,
  is_empty, Bool-cases, Option-cases,
}
use download_gateway.Prelude.Strings.{trim_space}
use download_gateway.Adapters.Client.{Adapter, is_guarded}
use download_gateway.Adapters.Spec.{ClientSpec}
use download_gateway.Adapters.Prepare.{Checked, ◌>>=◌, valid_client_id, prepare_spec}
use download_gateway.Adapters.Hash.{build_client, new_client}
use download_gateway.Adapters.Hash.Laws.{build_client-prepare_spec}
use download_gateway.Adapters.Failure.{Failure, Outcome, ok, fail, public_error}
use download_gateway.Adapters.Backends.{Backends, probe, reporter}
use download_gateway.Server.Reply.{json, Decoded, decode_json}
use download_gateway.Server.Console.{
  ConfigTest, begin_test, failed_test, report_test, after_probe, test_client, test_spec, in_reply,
  test_body, handle_config_test,
}

module _ {W : Type 0} (b : Backends W) where
  -- The client that was tested: built of the posted configuration, behind the endpoint policy, and not
  -- yet asked.
  pub record IsBuilt (spec : ClientSpec) (ad : Adapter) : Type 0 where
    pub prepared : ClientSpec
    pub accepted : prepare_spec b.lib spec ≡ Checked.ok prepared
    pub built : build_client prepared ≡ some ad
    pub guarded : is_guarded ad ≡ true

  -- What is told of a test that began in the state w: that the client is reachable, with the version
  -- that its probe returned; or why it is not, which is a fault of the configuration, or the failure
  -- of the probe as PublicError renders it.
  abbrev pub IsTold : ClientSpec → W → ConfigTest → Type 0
  IsTold spec w t =
      ((t.reachable ≡ true)
        × (t.error ≡ [])
        × ((ad : Adapter) × IsBuilt spec ad × ((probe b ad w).0 ≡ ok t.version)))
      ⊎ ((t.reachable ≡ false)
          × (t.version ≡ [])
          × ((t.error ≡ str "id must match ^[a-z0-9][a-z0-9-]{0,39}$")
              ⊎ (prepare_spec b.lib spec ≡ Checked.invalid t.error)
              ⊎ ((ad : Adapter) × IsBuilt spec ad
                  × ((f : Failure) × ((probe b ad w).0 ≡ fail f)
                      × (t.error ≡ public_error b.lib f)))))

  report_test-keeps :
      (out : ConfigTest) (ad : Adapter) (w : W)
      → ((report_test b out ad w).0.reachable ≡ out.reachable)
        × ((report_test b out ad w).0.version ≡ out.version)
        × ((report_test b out ad w).0.error ≡ out.error)
  unfolding report_test
  report_test-keeps out ad w = elim (Option-cases (reporter b ad)) [
    | inl e ↦ rw (e, report_test) (refl, refl, refl)
    | inr (report, e) ↦ rw (e, report_test) (refl, refl, refl)
  ]

  after_probe-IsTold :
      (spec : ClientSpec) (ad : Adapter) (w : W) (r : Outcome Str × W)
      → IsBuilt spec ad
      → probe b ad w ≡ r
      → IsTold spec w (after_probe b (begin_test b spec) ad r).0
  unfolding after_probe begin_test failed_test
  after_probe-IsTold spec ad w (fail f, v) made e =
      inr (refl, refl, inr (inr (ad, made, (f, ap (λ (p : Outcome Str × W). p.0) e, refl))))
  after_probe-IsTold spec ad w (ok version, v) made e =
      let (reached, same, clear) =
        report_test-keeps (record (begin_test b spec) { version = version; reachable = true }) ad
          v in
      inl (reached, clear, (ad, made, ap (λ (p : Outcome Str × W). p.0) e ∙ ap ok (sym same)))

  test_client-IsTold :
      (spec : ClientSpec) (w : W) (r : Checked ClientSpec)
      → prepare_spec b.lib spec ≡ r
      → (t : ConfigTest) × ((test_client b
            (begin_test b spec)
            (r >>= λ s. Checked.ok (build_client s, s))
            w).0
          ≡ some t)
        × IsTold spec w t
  unfolding test_client
  test_client-IsTold spec w (Checked.invalid message) e = (
    failed_test b (begin_test b spec) message,
    refl,
    unfold failed_test begin_test in inr (refl, refl, inr (inl e)),
  )
  test_client-IsTold spec w (Checked.ok s) e =
      let (ad, built, guarded) = build_client-prepare_spec b.lib spec s e in
      let made : IsBuilt spec ad = record {
        prepared = s;
        accepted = e;
        built = built;
        guarded = guarded;
      } in
      (
        (after_probe b (begin_test b spec) ad (probe b ad w)).0,
        rw (built, test_client) refl,
        after_probe-IsTold spec ad w (probe b ad w) made refl,
      )

  test_spec-IsTold :
      (spec : ClientSpec) (w : W)
      → (t : ConfigTest) × ((test_spec b spec w).0 ≡ some t) × IsTold spec w t
  unfolding test_spec new_client
  test_spec-IsTold spec w =
      elim (Bool-cases
        (not (is_empty (trim_space spec.id)) && not (valid_client_id (trim_space spec.id)))) [
          | inl unnamed ↦
              rw (unnamed, test_spec)
                (
                  failed_test b (begin_test b spec) (str "id must match ^[a-z0-9][a-z0-9-]{0,39}$"),
                  refl,
                  unfold failed_test begin_test in inr (refl, refl, inl refl),
                )
          | inr named ↦
              rw (named, test_spec) (test_client-IsTold spec w (prepare_spec b.lib spec) refl)
        ]

  in_reply-some :
      (t : ConfigTest) (r : Option ConfigTest × W)
      → r.0 ≡ some t
      → (in_reply b r).0 ≡ some (json 200 t)
  unfolding in_reply
  in_reply-some t (some u, w) h = cc
  in_reply-some t (none, w) h = absurd (cc)

  -- A test of any configuration is answered with status 200 and never panics: it says that the client
  -- is reachable, with no error, only where a client built of the configuration, behind the endpoint
  -- policy, answered its probe with the version told; else it tells no version, and as the error either
  -- what is wrong with the configuration or the failure of that client's probe as PublicError renders it.
  pub handle_config_test-IsTold :
      (spec : ClientSpec) (w : W)
      → (t : ConfigTest) × ((handle_config_test b (Decoded.value spec) w).0 ≡ some (json 200 t))
        × IsTold spec w t
  unfolding handle_config_test decode_json test_body
  handle_config_test-IsTold spec w =
      let (t, came, told) = test_spec-IsTold spec w in
      (t, in_reply-some t (test_spec b spec w) came, told)
