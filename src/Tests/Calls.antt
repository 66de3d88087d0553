-- ===== src/Tests/Calls.antt =====
-- The adapters' answers and the middleware.
use download_gateway.Prelude.{true, false, Str, str, some, [], ◌∷◌, ◌≡◌, ◌≢◌, ◌↔◌, All}
use download_gateway.Prelude.Int.{pos}
use download_gateway.Adapters.Odownloader.{DownloadView, fold_odl}
use download_gateway.Adapters.Odownloader.Laws.{fold_odl-state, package_state}
use download_gateway.Adapters.Qbittorrent.{Torrent, adopt_torrents}
use download_gateway.Adapters.Qbittorrent.Laws.{adopt_torrents-IsOurs, IsOurs}
use download_gateway.Auth.{Verifier, Verdict, valid, served, middleware}
use download_gateway.Auth.Laws.{HasBearer, middleware-served_iff}

abbrev link : Str → DownloadView
link state = record {
  name = str "n";
  bytes_done = pos 1;
  bytes_total = pos 2;
  speed = pos 3;
  state = state;
  message = [];
  output_path = str "/o";
}

fold_odl-state_example :
    (fold_odl (link (str "FINISHED") ∷ link (str "FAILED") ∷ [])).state
    ≡ package_state (link (str "FINISHED") ∷ link (str "FAILED") ∷ [])
fold_odl-state_example = fold_odl-state (link (str "FINISHED")) (link (str "FAILED") ∷ [])

abbrev torrent : Torrent
torrent = record {
  hash = str "h";
  name = str "n";
  state = str "downloading";
  complete = false;
  dl_speed = pos 1;
  eta = pos 1;
  size = pos 2;
  completed = pos 1;
  content_path = [];
  save_path = [];
  num_seeds = pos 0;
  num_leechs = pos 0;
  tags = str "a,dlg-7";
  category = str "c";
}

adopt_torrents-IsOurs_example :
    All (IsOurs (str "c") (torrent ∷ [])) (adopt_torrents (str "c") (torrent ∷ []))
adopt_torrents-IsOurs_example = adopt_torrents-IsOurs (str "c") (torrent ∷ [])

abbrev verifier : Verifier
verifier = record { issuer = str "https://i"; allowed = str "web" ∷ []; ready = true }

abbrev accept : Str → Verdict
accept token = valid (some (record { azp = str "web"; client_id = [] }))

has_issuer : verifier.issuer ≢ []
has_issuer e = cc

middleware-served_iff_example :
    ((middleware false accept (str "Bearer x") verifier).0 ≡ served)
    ↔ HasBearer false accept (str "Bearer x") verifier
middleware-served_iff_example =
    middleware-served_iff false accept (str "Bearer x") verifier has_issuer
