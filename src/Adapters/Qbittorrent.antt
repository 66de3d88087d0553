-- ===== src/Adapters/Qbittorrent.antt =====
-- internal/adapters/qbittorrent.go: torrent snapshots and adoption.
pub mod Laws
pub mod Tag
pub mod Calls
pub mod Jobs
pub mod Info
use download_gateway.Prelude.{
  ℕ, Bool, true, false, not, ◌&&◌, ◌||◌, Str, str, ◌==◌, Option, none, some, List, [], ◌∷◌, ◌++◌,
  if◌then◌else◌, is_empty, eqb, ltb, leb,
}
use download_gateway.Prelude.Int.{ℤ, pos, negsuc, ltb_ℤ, leb_ℤ}
use download_gateway.Prelude.Strings.{has_prefix, trim_space, split}
use download_gateway.Adapters.Job.{Status, JobView, AdoptedJob, new_job_view, not_found_state}
use download_gateway.Adapters.Client.{Qbittorrent}

-- `complete`: the reported progress, a float, is at least 1.
pub record Torrent : Type 0 where
  pub hash : Str
  pub name : Str
  pub state : Str
  pub complete : Bool
  pub dl_speed : ℤ
  pub eta : ℤ
  pub size : ℤ
  pub completed : ℤ
  pub content_path : Str
  pub save_path : Str
  pub num_seeds : ℤ
  pub num_leechs : ℤ
  pub tags : Str
  pub category : Str

unfoldable pub content_files : Torrent → List Str
content_files t =
    if not (is_empty t.content_path)
    then t.content_path ∷ []
    else if not (is_empty t.save_path)
    then t.save_path ∷ []
    else []

pub is_error_state : Str → Bool
is_error_state s = s == str "error" || s == str "missingFiles"

pub is_seeding_state : Str → Bool
is_seeding_state s =
    s == str "uploading"
    || s == str "pausedUP"
    || s == str "queuedUP"
    || s == str "stalledUP"
    || s == str "checkingUP"
    || s == str "forcedUP"

torrent_view : Torrent → Status → JobView
torrent_view t s = record (new_job_view s) {
  title = t.name;
  native_state = t.state;
  bytes_done = t.completed;
  bytes_total = t.size;
  speed_bps = t.dl_speed;
  eta_sec = if leb_ℤ (pos 8_640_000) t.eta || ltb_ℤ t.eta (pos 0) then negsuc 0 else t.eta;
  seeders = t.num_seeds;
  leechers = t.num_leechs;
}

unfoldable pub fold_qb : Torrent → JobView
unfolding content_files torrent_view is_error_state is_seeding_state
fold_qb t =
    if is_error_state t.state
    then record (torrent_view t Status.failed) { message = str "qbittorrent state: " ++ t.state }
    else if is_seeding_state t.state || t.complete
    then record (torrent_view t Status.completed) { files = content_files t }
    else torrent_view t Status.downloading

abbrev pub job_tag_prefix : Str
job_tag_prefix = str "dlg-"

-- The first tag that marks the torrent as the gateway's.
unfoldable pub job_tag : List Str → Option Str
job_tag [] = none
job_tag (raw ∷ tags) =
    let tag = trim_space raw in if has_prefix tag job_tag_prefix then some tag else job_tag tags

abbrev pub is_terminal : Status → Bool
is_terminal Status.completed = true
is_terminal Status.failed = true
is_terminal Status.queued = false
is_terminal Status.downloading = false

-- Whether the torrent is filed under another client's category.
unfoldable pub is_foreign : Str → Torrent → Bool
is_foreign category t =
    not (is_empty category) && not (is_empty t.category) && not (t.category == category)

adopt_tagged : Torrent → Option Str → List AdoptedJob → List AdoptedJob
adopt_tagged t none rest = rest
adopt_tagged t (some tag) rest = record { client_job_id = tag; title = t.name } ∷ rest

-- The loop of Adopt over the torrents that the client lists.
unfoldable pub adopt_torrents : Str → List Torrent → List AdoptedJob
unfolding adopt_tagged is_foreign
adopt_torrents category [] = []
adopt_torrents category (t ∷ ts) =
    let rest = adopt_torrents category ts in
    if is_terminal (fold_qb t).state
    then rest
    else if is_foreign category t
    then rest
    else adopt_tagged t (job_tag (split t.tags b',')) rest

-- Describe, of the first torrent with the tag; `none` inside is an empty list.
unfoldable pub describe_tag : Option Torrent → JobView
describe_tag none = record (new_job_view Status.queued) { native_state = not_found_state }
describe_tag (some t) = fold_qb t
