-- ===== src/Server/Publisher/Laws.antt =====
-- Where an event goes, and when it goes in the clear.
use native.Mathlib.Omega.{arith}
use download_gateway.Prelude.{
  Bool, true, ◌&&◌, Str, str, Option, none, some, [], ◌∷◌, ◌++◌, ◌≡◌, ◌≢◌, ◌↔◌, refl, ap,
  if◌then◌else◌, is_empty, Bool-cases, inl, inr, ◌⊎◌, sym,
}
use download_gateway.Prelude.Strings.Framing.{Lacks, separated}
use download_gateway.Adapters.Failure.{Outcome, ok, fail}
use download_gateway.Server.Event.{Event}
use download_gateway.Server.Publisher.{
  KafkaConfig, TlsFiles, TlsConfig, ProducerConfig, plaintext, parsed_pool, read_pool, with_pool,
  with_cert, secured, mtls, producer_config, Publisher, topic_for, key, kind_of, adapter_of,
  client_id_of, message_of,
}

append-cancel : (s t u : Str) → s ++ t ≡ s ++ u → t ≡ u
append-cancel [] t u h = h
append-cancel (c ∷ s) t u h = append-cancel s t u (cc)

-- A text without a colon.
abbrev pub HasNoColon : Str → Type 0
HasNoColon s = Lacks b':' s

key-injective :
    (a b i j : Str) → HasNoColon a → HasNoColon b → key a i ≡ key b j → (a ≡ b) × (i ≡ j)
unfolding key
key-injective a b i j h k e = separated b':' a b i j h k e

topic_for-injective : (p : Option Publisher) (k l : Str) → topic_for p k ≡ topic_for p l → k ≡ l
unfolding topic_for
topic_for-injective none k l h = append-cancel (str "stube.download.client.") k l h
topic_for-injective (some p) k l h =
    append-cancel (str "download.client.") k l
      (append-cancel (if is_empty p.prefix then str "stube." else p.prefix) _ _ h)

-- The events of one publisher go to one topic exactly if they are of one kind, and if the ids of their
-- clients have no colon, they have one key exactly if they are of one job.
message_of-injective :
    {F : Type 0} (p : Option Publisher) (e f : Event F) (b c : Str)
    → HasNoColon (adapter_of e)
    → HasNoColon (adapter_of f)
    → (((message_of p e b).topic ≡ (message_of p f c).topic) ↔ (kind_of e ≡ kind_of f))
      × (((message_of p e b).message_key ≡ (message_of p f c).message_key)
          ↔ ((adapter_of e ≡ adapter_of f) × (client_id_of e ≡ client_id_of f)))
unfolding message_of
message_of-injective p e f b c h k = (
  (λ same. topic_for-injective p (kind_of e) (kind_of f) same, λ same. ap (topic_for p) same),
  (
    λ same. key-injective (adapter_of e) (adapter_of f) (client_id_of e) (client_id_of f) h k same,
    λ same. cc,
  ),
)

-- None of the files of TLS is named.
abbrev pub NamesNoFile : KafkaConfig → Type 0
NamesNoFile c = (c.cert_file ≡ []) × (c.key_file ≡ []) × (c.ca_file ≡ [])

abbrev no_file : KafkaConfig → Bool
no_file c = is_empty c.cert_file && is_empty c.key_file && is_empty c.ca_file

is_empty_iff : (s : Str) → (is_empty s ≡ true) ↔ (s ≡ [])
is_empty_iff [] = (λ h. refl, λ h. refl)
is_empty_iff (c ∷ s) = (λ h. absurd (cc), λ h. absurd (cc))

no_file_iff : (c : KafkaConfig) → (no_file c ≡ true) ↔ NamesNoFile c
no_file_iff c =
    ground (arith, is_empty_iff c.cert_file, is_empty_iff c.key_file, is_empty_iff c.ca_file)

ok-eq : {A : Type 0} {a b : A} → ok a ≡ ok b → a ≡ b
ok-eq h = cc

module _ (files : TlsFiles) where
  open files use {Certificate, Pool}

  -- tls.LoadX509KeyPair reads both files, and no file has the empty name.
  abbrev pub ReadsBoth : Type 0
  ReadsBoth =
      (cert key : Str) (pair : Certificate)
      → files.load_pair cert key ≡ ok pair
      → (cert ≢ []) × (key ≢ [])

  -- The pool of the roots: those of the CA file, or none where no CA file is named.
  abbrev pub HasRoots : KafkaConfig → Pool → Type 0
  HasRoots c pool =
      ((c.ca_file ≡ []) × (pool ≡ files.empty_pool))
      ⊎ ((c.ca_file ≢ [])
          × ((text : Str) × (files.read_file c.ca_file ≡ ok text)
              × (files.append_pem text ≡ some pool)))

  -- The certificate and the key are those of the two files, with the roots of the third.
  pub record IsMutual (c : KafkaConfig) (t : TlsConfig Certificate Pool) : Type 0 where
    pub has_cert : c.cert_file ≢ []
    pub has_key : c.key_file ≢ []
    pub pair : files.load_pair c.cert_file c.key_file ≡ ok t.certificate
    pub roots : HasRoots c t.root_cas

  parsed-some : (o : Option Pool) (pool : Pool) → parsed_pool files o ≡ ok pool → o ≡ some pool
  unfolding parsed_pool
  parsed-some none pool h = absurd (cc)
  parsed-some (some p) pool h = cc

  read-Roots :
      (r : Outcome Str) (pool : Pool)
      → read_pool files r ≡ ok pool
      → (text : Str) × (r ≡ ok text) × (files.append_pem text ≡ some pool)
  unfolding read_pool
  read-Roots (fail f) pool h = absurd (cc)
  read-Roots (ok text) pool h = (text, refl, parsed-some (files.append_pem text) pool h)

  with_pool-eq-ok :
      (cert : Certificate) (r : Outcome Pool) (t : TlsConfig Certificate Pool)
      → with_pool files cert r ≡ ok t
      → (cert ≡ t.certificate) × (r ≡ ok t.root_cas)
  unfolding with_pool
  with_pool-eq-ok cert (fail f) t h = absurd (cc)
  with_pool-eq-ok cert (ok pool) t h = (
    ap TlsConfig.certificate (ok-eq h),
    ap (λ (u : TlsConfig Certificate Pool). ok u.root_cas) (ok-eq h),
  )

  pool-HasRoots :
      (c : KafkaConfig) (pool : Pool)
      → (if is_empty c.ca_file
          then ok files.empty_pool
          else read_pool files (files.read_file c.ca_file))
        ≡ ok pool
      → HasRoots c pool
  pool-HasRoots c pool h = elim (Bool-cases (is_empty c.ca_file)) [
    | inl none_named ↦ inl ((is_empty_iff c.ca_file).0 none_named, sym (ok-eq (rw none_named at h)))
    | inr named ↦ inr (
      λ e. absurd (cc ((is_empty_iff c.ca_file).1 e)),
      read-Roots (files.read_file c.ca_file) pool (rw named at h),
    )
  ]

  with_cert-IsMutual :
      (c : KafkaConfig) (r : Outcome Certificate) (t : TlsConfig Certificate Pool)
      → with_cert files c r ≡ ok t
      → (r ≡ ok t.certificate) × HasRoots c t.root_cas
  unfolding with_cert
  with_cert-IsMutual c (fail f) t h = absurd (cc)
  with_cert-IsMutual c (ok cert) t h =
      let (same, pool) = with_pool-eq-ok cert _ t h in
      (ap (λ (x : Certificate). ok x) same, pool-HasRoots c t.root_cas pool)

  mtls-IsMutual :
      ReadsBoth
      → (c : KafkaConfig) (t : TlsConfig Certificate Pool) → mtls files c ≡ ok t
      → IsMutual c t
  unfolding mtls
  mtls-IsMutual reads c t h =
      let (pair, roots) = with_cert-IsMutual c (files.load_pair c.cert_file c.key_file) t h in
      let (cert, key) = reads c.cert_file c.key_file t.certificate pair in
      record { has_cert = cert; has_key = key; pair = pair; roots = roots }

  secured-tls :
      (r : Outcome (TlsConfig Certificate Pool)) (cfg : ProducerConfig Certificate Pool)
      → secured files r ≡ ok cfg
      → (t : TlsConfig Certificate Pool) × (r ≡ ok t) × (cfg.tls ≡ some t)
  unfolding secured
  secured-tls (ok t) cfg h = (t, refl, cc)
  secured-tls (fail f) cfg h = absurd (cc)

  plain_tls :
      (cfg : ProducerConfig Certificate Pool) → ok (plaintext files) ≡ ok cfg → cfg.tls ≡ none
  plain_tls cfg h = cc

  -- Where no certificate loads from an empty file name: a producer that can be made speaks plaintext
  -- only if none of the files of TLS is named. If any is, both the certificate and the key are named,
  -- and the producer has the pair of these two files, with the roots of the CA file, or of no file if
  -- none is named. So a set without the certificate or the key is an error and never plaintext.
  pub producer_config-tls :
      ReadsBoth
      → (c : KafkaConfig) (cfg : ProducerConfig Certificate Pool) → producer_config files c ≡ ok cfg
      → (NamesNoFile c × (cfg.tls ≡ none))
        ⊎ ((t : TlsConfig Certificate Pool) × IsMutual c t × (cfg.tls ≡ some t))
  unfolding producer_config
  producer_config-tls reads c cfg h = elim (Bool-cases (no_file c)) [
    | inl bare ↦ inl ((no_file_iff c).0 bare, plain_tls cfg (rw (bare, producer_config) at h))
    | inr some_file ↦
        let (t, loaded, spoken) =
          secured-tls (mtls files c) cfg (rw (some_file, producer_config) at h) in
        inr (t, mtls-IsMutual reads c t loaded, spoken)
  ]
