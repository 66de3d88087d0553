-- ===== src/Adapters/Client.antt =====
-- The adapter structs of nzbget.go, qbittorrent.go, odownloader.go and jdownloader.go, their
-- constructors, and the transport policy that endpoint.go puts on pushed clients.
use download_gateway.Prelude.{ℕ, Bool, true, false, Str, str, []}
use download_gateway.Prelude.Strings.{trim_right_byte}

-- The parts of *http.Client that the adapters set. `guarded`: pushedTransport and sameOrigin are in
-- place; `jar`: a cookie jar holds the session.
pub record HttpClient : Type 0 where
  pub timeout_seconds : ℕ
  pub jar : Bool
  pub guarded : Bool

unfoldable pub guard : HttpClient → HttpClient
guard c = record c { guarded = true }

pub record Nzbget : Type 0 where
  pub base_url : Str
  pub username : Str
  pub password : Str
  pub category : Str
  pub http : HttpClient

pub record Qbittorrent : Type 0 where
  pub base_url : Str
  pub username : Str
  pub password : Str
  pub category : Str
  pub http : HttpClient

pub record Odownloader : Type 0 where
  pub base_url : Str
  pub token : Str
  pub http : HttpClient

unfoldable pub new_nzbget : Str → Str → Str → Str → Nzbget
new_nzbget base_url user pass category = record {
  base_url = trim_right_byte b'/' base_url;
  username = user;
  password = pass;
  category = category;
  http = record { timeout_seconds = 30; jar = false; guarded = false };
}

unfoldable pub new_qbittorrent : Str → Str → Str → Qbittorrent
new_qbittorrent base_url user pass = record {
  base_url = trim_right_byte b'/' base_url;
  username = user;
  password = pass;
  category = [];
  http = record { timeout_seconds = 30; jar = true; guarded = false };
}

unfoldable pub new_odownloader : Str → Str → Odownloader
new_odownloader base_url token = record {
  base_url = base_url;
  token = token;
  http = record { timeout_seconds = 20; jar = false; guarded = false };
}

-- The adapters that implement the interface `Adapter`. The JDownloader stub is never built.
pub data Adapter : Type 0 where
  nzbget : Nzbget → Adapter
  qbittorrent : Qbittorrent → Adapter
  odownloader : Odownloader → Adapter

-- Name()
unfoldable pub name : Adapter → Str
name (nzbget n) = str "nzbget"
name (qbittorrent q) = str "qbittorrent"
name (odownloader o) = str "odownloader"

-- Whether the adapter's requests go through the pushed-client endpoint policy.
abbrev pub is_guarded : Adapter → Bool
is_guarded (nzbget n) = n.http.guarded
is_guarded (qbittorrent q) = q.http.guarded
is_guarded (odownloader o) = o.http.guarded
