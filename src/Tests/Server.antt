-- ===== src/Tests/Server.antt =====
-- The routes, the publisher, the environment and the test of a client.
use download_gateway.Prelude.{
  ℕ, ◌==◌, ◌||◌, is_empty, contains, true, false, Str, str, none, some, [], ◌∷◌, ◌≡◌, ◌≢◌, ◌⊎◌,
  refl, if◌then◌else◌,
}
use download_gateway.Prelude.Strings.{has_prefix}
use download_gateway.Adapters.Failure.{ok, fail, plain, wrapped}
use download_gateway.Adapters.Backends.{Backends}
use download_gateway.Adapters.Client.{new_nzbget, new_odownloader, new_qbittorrent}
use download_gateway.Adapters.Registry.{empty_registry}
use download_gateway.Auth.{Verifier, Verdict, valid, restricted, middleware}
use download_gateway.Auth.Laws.{HasBearer}
use download_gateway.Server.Publisher.{
  TlsFiles, TlsConfig, ProducerConfig, KafkaConfig, producer_config,
}
use download_gateway.Server.Publisher.Laws.{producer_config-tls, NamesNoFile, ReadsBoth, IsMutual}
use download_gateway.Server.Routes.{dispatch, handled, config_apply}
use download_gateway.Server.Routes.Laws.{dispatch-Checked, is_config, is_open}
use download_gateway.Server.Reply.{json, Decoded}
use download_gateway.Server.Console.{ConfigTest, handle_config_test}
use download_gateway.Server.Console.Laws.{handle_config_test-IsTold, IsTold}
use download_gateway.Server.Env.{register_env_clients}
use download_gateway.Server.Env.Laws.{Stands, register_env_clients-Stands}
use download_gateway.Server.Add.{Gateway}
use download_gateway.Server.Handlers.{pause}
use download_gateway.Server.Live.{remove_live, describe_live, control_live}
use download_gateway.Server.Live.Laws.{IsClean, live-IsClean}
use download_gateway.Tests.Data.{lib, raw_spec, registry, whole}
use download_gateway.Tests.Webs.{web, rpc, daemon}

abbrev pub backends : Backends ℕ
backends = record { lib = lib; rpc = rpc; web = web; daemon = daemon }

handle_config_test-IsTold_example :
    (t : ConfigTest) × ((handle_config_test backends (Decoded.value raw_spec) 0).0
      ≡ some (json 200 t))
    × IsTold backends raw_spec 0 t
handle_config_test-IsTold_example = handle_config_test-IsTold backends raw_spec 0

-- Only the URL of NZBGet is set.
abbrev getenv : Str → Str
getenv name = if name == str "NZBGET_URL" then str "http://h" else []

register_env_clients-Stands_example :
    Stands
      (getenv (str "NZBGET_URL"))
      (new_nzbget (getenv (str "NZBGET_URL")) [] [] [])
      []
      (new_odownloader [] [])
      []
      (new_qbittorrent [] [] [])
      (register_env_clients getenv empty_registry)
unfolding ◌==◌
register_env_clients-Stands_example = register_env_clients-Stands getenv

abbrev verifier : Verifier
verifier = record { issuer = str "https://i"; allowed = str "web" ∷ []; ready = true }

abbrev accept : Str → Verdict
accept token = valid (some (record { azp = str "web"; client_id = [] }))

pushed :
    dispatch false accept (str "Bearer x") verifier (str "PUT") (str "/api/v1/config/clients")
    ≡ handled config_apply
unfolding dispatch ◌==◌ restricted middleware has_prefix contains
pushed = refl

dispatch-Checked_example :
    (is_config config_apply ≡ true → (verifier.issuer ≢ []) × (verifier.allowed ≢ []))
    × (is_open config_apply ≡ false
        → verifier.issuer ≢ []
        → HasBearer false accept (str "Bearer x") verifier)
dispatch-Checked_example =
    dispatch-Checked false accept (str "Bearer x") verifier (str "PUT")
      (str "/api/v1/config/clients") config_apply pushed

-- Files that all read, with themselves as their content.
abbrev pub files : TlsFiles
files = record {
  Certificate = Str;
  Pool = Str;
  empty_pool = [];
  load_pair = λ cert key.
      if is_empty cert || is_empty key then fail (plain (str "open : no such file")) else ok cert;
  read_file = λ name. ok name;
  append_pem = λ ca. some ca;
}

abbrev kafka : KafkaConfig
kafka = record {
  brokers = str "k:9093";
  cert_file = str "c";
  key_file = str "k";
  ca_file = str "ca";
  topic_prefix = str "t.";
}

abbrev secure : ProducerConfig Str Str
secure = record {
  return_successes = true;
  wait_for_all = true;
  idempotent = true;
  max_open_requests = 1;
  tls = some (record { certificate = str "c"; root_cas = str "ca" });
}

configured : producer_config files kafka ≡ ok secure
unfolding producer_config
configured = refl

reads_both : ReadsBoth files
reads_both [] key pair h = absurd (cc)
reads_both (c ∷ cert) [] pair h = absurd (cc)
reads_both (c ∷ cert) (k ∷ key) pair h = (λ e. absurd (cc), λ e. absurd (cc))

-- A CA file alone is an error.
lone_ca :
    (producer_config files (record kafka { cert_file = []; key_file = [] }))
    ≡ fail (wrapped (str "kafka mTLS: ") (plain (str "open : no such file")))
unfolding producer_config
lone_ca = refl

producer_config-tls_example :
    (NamesNoFile kafka × (secure.tls ≡ none))
    ⊎ ((t : TlsConfig Str Str) × IsMutual files kafka t × (secure.tls ≡ some t))
producer_config-tls_example = producer_config-tls files reads_both kafka secure configured

abbrev gateway : Gateway
gateway = record { reg = registry; jobs = []; body_in_flight = 0 }

live-IsClean_example :
    IsClean (remove_live backends (str "nz") (str "7") gateway 0).0.0
    × IsClean (describe_live backends whole (str "nz") (str "7") gateway 0).0
    × IsClean (control_live backends pause (str "nz") (str "7") gateway.reg 0).0
live-IsClean_example = live-IsClean backends whole pause (str "nz") (str "7") gateway 0
