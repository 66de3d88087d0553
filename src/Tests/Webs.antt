-- ===== src/Tests/Webs.antt =====
-- The calls over clients whose answer is the same each time; the state counts the requests.
use mathlib.Core.List.{Memᴰ}
use native.Mathlib.Omega.{arith}
use download_gateway.Prelude.{
  ℕ, suc, ◌==◌, ◌/◌, ◌^◌, ◌<◌, true, false, Str, str, none, some, List, [], ◌∷◌, ◌++◌, ◌≡◌, refl,
}
use download_gateway.Prelude.Int.{ℤ, pos}
use download_gateway.Prelude.Strings.{atoi, trim_space, itoa, itoa_ℤ}
use download_gateway.Prelude.Base64.{encode}
use download_gateway.Adapters.Job.{Job}
use download_gateway.Adapters.Client.{
  Nzbget, Qbittorrent, Odownloader, new_nzbget, new_qbittorrent, new_odownloader,
}
use download_gateway.Adapters.Failure.{ok, fail, plain, max_list_response}
use download_gateway.Adapters.Http.{Request, Response, Call, decode_capped}
use download_gateway.Adapters.Http.Laws.{Makes}
use download_gateway.Adapters.Nzbget.Json.{text, number}
use download_gateway.Adapters.Nzbget.Calls.{Endpoint, Stats, call, append_content}
use download_gateway.Adapters.Nzbget.Calls.Laws.{append_content-call}
use download_gateway.Adapters.Nzbget.{Group}
use download_gateway.Adapters.Nzbget.Jobs.Laws.{add-atoi}
use download_gateway.Adapters.Odownloader.{DownloadView, fold_odl}
use download_gateway.Adapters.Odownloader.Calls.{Daemon}
use download_gateway.Adapters.Odownloader.Calls.Laws.{describe-folds}
use download_gateway.Adapters.Qbittorrent.{
  Torrent, describe_tag, fold_qb, is_terminal, is_foreign, adopt_torrents,
}
use download_gateway.Adapters.Qbittorrent.Calls.{Web, authed, fetch}
use download_gateway.Adapters.Qbittorrent.Tag.{new_job_tag}
use download_gateway.Adapters.Qbittorrent.Jobs.Laws.{
  Listed, Shows, describe-Listed, Accepted, add-adopt,
}
use download_gateway.Adapters.Qbittorrent.Jobs.Requests.{operations-Makes}
use download_gateway.Adapters.Nzbget.Jobs as Nz
use download_gateway.Adapters.Odownloader.Calls as Od
use download_gateway.Adapters.Qbittorrent.Jobs as Qb
use download_gateway.Tests.Data.{lib}

-- Status 200 with the body "Ok.".
abbrev ok_200 : Request → Call ℕ Response
ok_200 r n = (ok (record { status = 200; body = str "Ok." }), suc n)

abbrev pub web : Web ℕ
web = record {
  exchange = ok_200;
  cookies = λ n. [];
  random = λ n. (some (1 ∷ 2 ∷ []), n);
  clock = λ n. 7;
  torrents = λ s. (ok [], true);
  transfer = λ s. (fail (plain (str "EOF")), true);
}

abbrev qb : Qbittorrent
qb = new_qbittorrent (str "http://h") (str "u") (str "p")

abbrev job : Job
job = record {
  id = [];
  source = str "magnet:?x";
  save_path = [];
  title = str "t";
  category = [];
  payload = [];
  payload_name = [];
}

operations-Makes_example :
    Makes (λ n. n) 4 (Qb.add lib web qb job)
    × Makes (λ n. n) 4 (Qb.describe lib web qb (str "dlg-1"))
    × Makes (λ n. n) 8 (Qb.remove lib web qb (str "dlg-1"))
    × Makes (λ n. n) 12 (Qb.pause lib web qb (str "dlg-1"))
    × Makes (λ n. n) 12 (Qb.resume lib web qb (str "dlg-1"))
    × Makes (λ n. n) 4 (Qb.adopt lib web qb)
operations-Makes_example =
    operations-Makes lib web qb (λ n. n) (λ r. unfold Makes in λ w. omega arith) (λ w. omega arith)
      job (str "dlg-1")

abbrev torrent : Torrent
torrent = record {
  hash = str "abc";
  name = str "t";
  state = str "downloading";
  complete = false;
  dl_speed = pos 9;
  eta = pos 60;
  size = pos 100;
  completed = pos 40;
  content_path = [];
  save_path = [];
  num_seeds = pos 1;
  num_leechs = pos 2;
  tags = str "dlg-1";
  category = [];
}

-- qBittorrent lists one torrent.
abbrev seeded : Web ℕ
seeded = record web { torrents = λ s. (ok (torrent ∷ []), true) }

listed : (Qb.describe lib seeded qb (str "dlg-1") 0).0 ≡ ok (fold_qb torrent)
unfolding Qb.describe authed new_qbittorrent fetch decode_capped describe_tag
listed = refl

describe-Listed_example :
    (list : List Torrent) × Listed lib seeded qb (str "dlg-1") 0 list × Shows (fold_qb torrent) list
describe-Listed_example = describe-Listed lib seeded qb (str "dlg-1") 0 (fold_qb torrent) listed

added : (Qb.add lib web qb job 0).0 ≡ ok (str "dlg-0102")
unfolding Qb.add authed new_qbittorrent ◌==◌ trim_space new_job_tag
added = refl

add-adopt_example :
    Accepted lib web qb (str "dlg-0102") job 0
    × ((t : Torrent) (ts : List Torrent)
        → Memᴰ t ts
        → t.tags ≡ str "dlg-0102"
        → is_terminal (fold_qb t).state ≡ false
        → is_foreign qb.category t ≡ false
        → Memᴰ
            (record { client_job_id = str "dlg-0102"; title = t.name })
            (adopt_torrents qb.category ts))
add-adopt_example = add-adopt lib web qb job 0 (str "dlg-0102") added (ground arith)

abbrev no_stats : Stats
no_stats = record {
  download_rate = pos 0;
  server_paused = false;
  download2_paused = false;
  free_disk_lo = pos 0;
  free_disk_hi = pos 0;
  free_disk_mb = pos 0;
  post_job_count = pos 0;
  quota_reached = false;
  servers = [];
}

-- NZBGet gives each new job the number 7 and lists none.
abbrev pub rpc : Endpoint ℕ
rpc = record {
  exchange = ok_200;
  quote = λ s. b'"' ∷ s ++ b'"' ∷ [];
  answer = λ s. (ok (record { error = none; result = str "7" }), true);
  groups = λ s. ok [];
  own_groups = λ s. ok [];
  history = λ s. ok [];
  nzb_id = λ s. some (pos 7);
  version = λ s. none;
  stats = λ s. ok no_stats;
}

abbrev nz : Nzbget
nz = new_nzbget (str "http://h") [] [] []

abbrev group : ℤ → Group
group id = record {
  nzb_id = id;
  nzb_name = str "t";
  status = str "QUEUED";
  category = [];
  file_size_mb = pos 1;
  file_size_lo = pos 0;
  file_size_hi = pos 0;
  downloaded_size_mb = pos 0;
  downloaded_size_lo = pos 0;
  downloaded_size_hi = pos 0;
  remaining_size_mb = pos 1;
  remaining_size_lo = pos 0;
  remaining_size_hi = pos 0;
  download_rate = pos 0;
  health = pos 1000;
}

abbrev two_groups : List Group
two_groups = group (pos 6) ∷ group (pos 7) ∷ []

-- NZBGet lists two jobs.
abbrev queueing : Endpoint ℕ
queueing = record rpc { groups = λ s. ok two_groups }

nz_added : (Nz.add lib rpc nz job 0).0 ≡ ok (str "7")
unfolding Nz.add call decode_capped itoa_ℤ itoa
nz_added = refl

add-atoi_example :
    (res : Str) × (k : ℕ) × ((Nz.append lib rpc nz job 0).0 ≡ ok res)
    × (some (pos 7) ≡ some (pos k))
    × (0 < k)
    × (k < 2 ^ 63 → atoi (str "7") ≡ (pos k, true))
add-atoi_example = add-atoi lib rpc nz job 0 (str "7") nz_added

append_content-call_example :
    append_content rpc nz (str "a.nzb") (str "nzb!") (number (pos 0) ∷ []) 0
    ≡ call rpc nz
        (str "append")
        (text (str "a.nzb") ∷ text (encode (str "nzb!")) ∷ number (pos 0) ∷ [])
        0
append_content-call_example =
    append_content-call rpc nz (λ s h. refl) (str "a.nzb") (str "nzb!") (number (pos 0)) [] 0
      (ground arith)

abbrev pub daemon : Daemon ℕ
daemon = record {
  exchange = ok_200;
  quote = λ s. s;
  query_escape = λ s. s;
  path_escape = λ s. s;
  page = λ s. (ok [], true);
  add_result = λ s. (ok (record { package_id = str "p"; rejected = [] }), true);
}

abbrev od : Odownloader
od = new_odownloader (str "http://h") []

od_unlisted : (Od.describe daemon od (str "p") 0).0 ≡ ok (fold_odl [])
unfolding Od.describe decode_capped
od_unlisted = refl

describe-folds_example :
    (resp : Response) × (links : List DownloadView) × ((Od.describe_call daemon od (str "p") 0).0
      ≡ ok resp)
    × (resp.status / 100 ≡ 2)
    × (decode_capped max_list_response daemon.page resp.body ≡ ok links)
    × (fold_odl [] ≡ fold_odl links)
describe-folds_example = describe-folds daemon od (str "p") 0 (fold_odl []) od_unlisted
