-- ===== src/Lib.antt =====
-- download-gateway: the state, the decisions and the events of the gateway between acquiring
-- applications and the download clients (NZBGet, qBittorrent, ODownloader).
--
-- The program keeps a registry of clients and a table of tracked jobs. Handlers add, remove, list
-- and control jobs; a poll loop asks each job's client for a snapshot and emits lifecycle events;
-- the owner pushes the client configuration as a set. A client that a push leaves out while it has
-- jobs drains, and is reaped after the last of them. An add and an adoption hold a lease of their
-- client, so that no push drops it under them.
--
-- Adapters follows internal/adapters:
--   Adapters/Job       adapters.go: Job, Status, JobView, AdoptedJob
--   Adapters/Client    the adapter structs and constructors of nzbget.go, qbittorrent.go and
--                      odownloader.go, and guard of endpoint.go as a flag of the HTTP client
--   Adapters/Spec      clients.go: the catalog, ClientSpec, ClientInfo, RedactURL
--   Adapters/Prepare   clients.go: PrepareSpec and ValidClientID, a step per part of the function
--   Adapters/Hash      clients.go: specHash, buildClient, NewClient
--   Adapters/Registry  registry.go: AddEnv, Get, Lookup, Lease and its release, Active, Names,
--                      Config; Registry/Apply: Apply (push_one is one round of the loop over the
--                      specs, sweep the loop over the clients) and Reap
--   Adapters/Redact    MarshalJSON and the LogValue methods; Adapters/Jdownloader: the stub
--   Adapters/FileName  adapters.go: payloadFileName; Adapters/Report: ClientStatus
--   Adapters/Failure   responses.go: errors as values, PublicError, truncate
--   Adapters/Backends  adapters.go: Adapter, Controller, Prober, Reporter and Rehydrator, by the
--                      type of the adapter
--   Adapters/Http      responses.go: newStatusError and decodeCapped, and requests as values
--   Adapters/Endpoint  endpoint.go: RefusedAddr, refuseDial, sameOrigin
--   Adapters/Nzbget, Adapters/Qbittorrent, Adapters/Odownloader
--                      foldNZBGroup, foldNZBHistory, foldQB, foldODL, and what Describe and Adopt
--                      make of the clients' decoded answers; below them the calls:
--     Nzbget/Json, Nzbget/Calls    the body of a call; call, send, appendContent
--     Nzbget/Upload                base64Reader
--     Nzbget/Jobs, Nzbget/Info     Add, Describe, edit, Remove, Adopt; Probe, ClientStatus
--     Qbittorrent/Tag              newJobTag
--     Qbittorrent/Calls            post, get, login, hasSession, authed
--     Qbittorrent/Jobs, Qbittorrent/Info
--                                  Add, byTag, Describe, Remove, control, Adopt; Probe, ClientStatus
--     Odownloader/Calls            do, Add, Describe, Remove, Probe
-- Server follows cmd/server:
--   Server/Event       the payloads of internal/events/events.go
--   Server/Jobs        main.go: the table of tracked jobs, one function per critical section
--   Server/Poll        main.go: pollOne, fillDerived, pollAll
--   Server/Budget      main.go: admitAdd and its release
--   Server/Add         main.go: handleAdd; Server/Adopt: adopt, adoptExisting
--   Server/Handlers    main.go: handleRemove, handleList, handleDescribe, handleControl, handleReady
--   Server/Live        main.go: these over the calls of the job's client; Live/Add, Live/Adopt and
--                      Live/Poll: handleAdd, adopt, pollOne and pollAll over them
--   Server/Config      config.go: handleConfigTypes, handleConfigClients, handleConfigApply
--   Server/Console     config.go: handleConfigTest; main.go: handleClientStatus
--   Server/Routes      main.go: routes, with the check of Auth before them
--   Server/Env         main.go: registerEnvClients, authMode, envOr, envDur
--   Server/Publisher   internal/events/events.go: Publisher, Config, producerConfig, mTLS
--   Server/Session     main.go: pollAll, and all of these one after the other
--   Server/Process     main.go: main, pollLoop, and the routes' handlers on the state of the process
--   Server/System      the critical sections as steps of a relation, in any order
-- Auth is internal/auth/oidc.go: the middleware, with the provider's verdict as a value.
-- Prelude holds the shared names, Go's strings and integers, and maps as association lists.
-- Tests applies the theorems at concrete inputs.
--
-- Strings are lists of bytes over the native naturals. int64 and int32 are integers that wrap where
-- the code computes with them (wrap64, wrap32). A time is a number of nanoseconds of the monotonic
-- clock, read where the code reads it. A Go map is an association list in the order of iteration,
-- which Go leaves open, so no theorem depends on it beyond the lists the code sorts.
--
-- A call of a client is a function of a state that stands for the network, the client and the cookie
-- jar; it returns a value or an error, and the state after it. A request is a value, and one exchange
-- is one Do of net/http, its redirects included.
--
-- Parameters stand for what is not in the repository: GoLib is url.Parse, sha256.Sum256 and the
-- escaping of strconv.Quote, NetLib is net.SplitHostPort and netip.ParseAddr, Float64 is float64 by
-- the operations used; Web, Endpoint and Daemon are the exchange of a request with a client of each
-- type, and the JSON decoders and encoders of its adapter; functions or arguments give what the token
-- verifier and the clock answer. The laws that are assumed of them stand in the theorems: of
-- json.Marshal, that base64 letters need no escape; of an exchange, that it counts as one request; of
-- random bytes and of a payload, that their bytes are below 256.
--
-- In Server/System a step is one section under a lock. A push and a reap ask the job table which
-- clients are in use while they hold the registry's lock; IsTold says what that answer covers at the
-- end of the section: each client with a job or a lease. The poll loop is any sequence of steps. Fuel
-- is only in the printing of numbers, where it is the number itself, of which each digit takes at
-- least one away; every other loop is over a list or counts down.
--
-- Server/Process runs the parts together: what happens to the process is a list of requests, turns of
-- the poll loop, adoptions that a push started, and the signal to stop, each taken as a whole. When
-- they happen is left open, so the ticks, the signal and the HTTP server are not written out; that
-- their critical sections interleave is in Server/System. An interval that is not positive makes
-- time.NewTicker panic, which ends the process; the model ends it at once, though the goroutine of
-- pollLoop may come to it after a first request.
--
-- Not modelled: HTTP itself, the JSON decoders, multipart and form encoding, and the producer of
-- Kafka (libraries); the timeouts of contexts, which show only as errors of calls; the lines that are
-- logged, but for what LogValue prints; internal/auth/authtest, a test issuer.
pub mod Prelude
pub mod Adapters
pub mod Server
pub mod Auth
pub mod Tests
