-- ===== src/Server/Publisher.antt =====
-- internal/events/events.go: the publisher of the lifecycle events and its connection to Kafka.
pub mod Laws
use download_gateway.Prelude.{
  ℕ, Bool, true, false, not, ◌&&◌, Str, str, Option, none, some, is_some, List, [], ◌∷◌, ◌++◌,
  if◌then◌else◌, is_empty,
}
use download_gateway.Prelude.Strings.{trim_space, split}
use download_gateway.Adapters.Failure.{Failure, wrapped, plain, Outcome, ok, fail}
use download_gateway.Adapters.Http.{Call, returns, raise, ◌>>=◌, proceed, lift}
use download_gateway.Server.Event.{Event, started, progress, completed, failed}

abbrev pub default_topic_prefix : Str
default_topic_prefix = str "stube."

-- Config
pub record KafkaConfig : Type 0 where
  pub brokers : Str
  pub cert_file : Str
  pub key_file : Str
  pub ca_file : Str
  pub topic_prefix : Str

-- ConfigFromEnv; a variable that is not set reads as empty.
unfoldable pub config_from_env : (Str → Str) → KafkaConfig
config_from_env getenv =
    let prefix = trim_space (getenv (str "KAFKA_TOPIC_PREFIX")) in
    record {
      brokers = getenv (str "KAFKA_BROKERS");
      cert_file = getenv (str "KAFKA_TLS_CERT");
      key_file = getenv (str "KAFKA_TLS_KEY");
      ca_file = getenv (str "KAFKA_TLS_CA");
      topic_prefix = if is_empty prefix then default_topic_prefix else prefix;
    }

-- The files of TLS: tls.LoadX509KeyPair, os.ReadFile, and AppendCertsFromPEM on a new pool.
pub record TlsFiles : Type 1 where
  pub Certificate : Type 0
  pub Pool : Type 0
  pub empty_pool : Pool
  pub load_pair : Str → Str → Outcome Certificate
  pub read_file : Str → Outcome Str
  pub append_pem : Str → Option Pool

pub record TlsConfig (Certificate Pool : Type 0) : Type 0 where
  pub certificate : Certificate
  pub root_cas : Pool

-- The settings of sarama that producerConfig makes.
pub record ProducerConfig (Certificate Pool : Type 0) : Type 0 where
  pub return_successes : Bool
  pub wait_for_all : Bool
  pub idempotent : Bool
  pub max_open_requests : ℕ
  pub tls : Option (TlsConfig Certificate Pool)

module _ (files : TlsFiles) where
  open files use {Certificate, Pool}

  abbrev plaintext : ProducerConfig Certificate Pool
  plaintext = record {
    return_successes = true;
    wait_for_all = true;
    idempotent = true;
    max_open_requests = 1;
    tls = none;
  }

  parsed_pool : Option Pool → Outcome Pool
  parsed_pool none = fail (plain (str "append CA failed"))
  parsed_pool (some pool) = ok pool

  read_pool : Outcome Str → Outcome Pool
  unfolding parsed_pool
  read_pool (fail f) = fail f
  read_pool (ok ca) = parsed_pool (files.append_pem ca)

  with_pool : Certificate → Outcome Pool → Outcome (TlsConfig Certificate Pool)
  with_pool cert (fail f) = fail f
  with_pool cert (ok pool) = ok (record { certificate = cert; root_cas = pool })

  with_cert : KafkaConfig → Outcome Certificate → Outcome (TlsConfig Certificate Pool)
  unfolding read_pool with_pool
  with_cert c (fail f) = fail f
  with_cert c (ok cert) =
      with_pool cert
        (if is_empty c.ca_file then ok files.empty_pool else read_pool (files.read_file c.ca_file))

  -- mTLS
  unfoldable pub mtls : KafkaConfig → Outcome (TlsConfig Certificate Pool)
  unfolding with_cert
  mtls c = with_cert c (files.load_pair c.cert_file c.key_file)

  secured : Outcome (TlsConfig Certificate Pool) → Outcome (ProducerConfig Certificate Pool)
  secured (fail f) = fail (wrapped (str "kafka mTLS: ") f)
  secured (ok t) = ok (record plaintext { tls = some t })

  -- producerConfig
  unfoldable pub producer_config : KafkaConfig → Outcome (ProducerConfig Certificate Pool)
  unfolding mtls secured
  producer_config c =
      if is_empty c.cert_file && is_empty c.key_file && is_empty c.ca_file
      then ok plaintext
      else secured (mtls c)

-- Publisher; `connected`: it has a producer.
pub record Publisher : Type 0 where
  pub connected : Bool
  pub prefix : Str
  pub closed : Bool

module _ {W : Type 0} (files : TlsFiles)
    (dial : List Str → ProducerConfig files.Certificate files.Pool → Call W (Unit {0})) where
  -- NewPublisher; `dial` is newSyncProducer.
  unfoldable pub new_publisher : KafkaConfig → Call W Publisher
  unfolding producer_config
  new_publisher c =
      if is_empty c.brokers
      then returns (record { connected = false; prefix = c.topic_prefix; closed = false })
      else (do
        cfg ← lift (producer_config files c)
        _ ← dial (split c.brokers b',') cfg
        returns (record { connected = true; prefix = c.topic_prefix; closed = false }))

-- A nil publisher is `none`.
unfoldable pub ready : Option Publisher → Bool
ready none = false
ready (some p) = not p.closed

unfoldable pub topic_for : Option Publisher → Str → Str
topic_for none kind = default_topic_prefix ++ (str "download.client." ++ kind)
topic_for (some p) kind =
    (if is_empty p.prefix then default_topic_prefix else p.prefix)
    ++ (str "download.client." ++ kind)

unfoldable pub key : Str → Str → Str
key adapter client_id = adapter ++ b':' ∷ client_id

abbrev pub is_connected : Option Publisher → Bool
is_connected none = false
is_connected (some p) = p.connected

-- sarama.ProducerMessage
pub record Message : Type 0 where
  pub topic : Str
  pub message_key : Str
  pub value : Str

module _ {F : Type 0} where
  unfoldable pub kind_of : Event F → Str
  kind_of (started e) = str "started"
  kind_of (progress e) = str "progress"
  kind_of (completed e) = str "completed"
  kind_of (failed e) = str "failed"

  abbrev pub adapter_of : Event F → Str
  adapter_of (started e) = e.adapter
  adapter_of (progress e) = e.adapter
  adapter_of (completed e) = e.adapter
  adapter_of (failed e) = e.adapter

  abbrev pub client_id_of : Event F → Str
  client_id_of (started e) = e.client_id
  client_id_of (progress e) = e.client_id
  client_id_of (completed e) = e.client_id
  client_id_of (failed e) = e.client_id

  unfoldable pub message_of : Option Publisher → Event F → Str → Message
  unfolding topic_for kind_of key
  message_of p e b = record {
    topic = topic_for p (kind_of e);
    message_key = key (adapter_of e) (client_id_of e);
    value = b;
  }

  -- EmitStarted to EmitFailed, with emit: `marshal` is json.Marshal of the event with its time stamp,
  -- in milliseconds; `send` is SendMessage.
  unfoldable pub emit :
      {W : Type 0}
      → (ℕ → Event F → Outcome Str)
      → (Message → Call W (Unit {0}))
      → Option Publisher
      → ℕ
      → Event F
      → Call W (Unit {0})
  unfolding message_of
  emit marshal send p now e = do
    b ← lift (marshal now e)
    if is_connected p then send (message_of p e b) else returns tt

-- Close: the publisher after it, and the error of the producer's Close.
unfoldable pub close : Outcome (Unit {0}) → Option Publisher → Outcome (Unit {0}) × Option Publisher
close closing none = (ok tt, none)
close closing (some p) = (if p.connected then closing else ok tt, some (record p { closed = true }))
