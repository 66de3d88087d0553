-- ===== src/Adapters/Qbittorrent/Jobs.antt =====
-- internal/adapters/qbittorrent.go: adding, describing, removing, controlling and adopting jobs.
pub mod Laws
pub mod Requests
use download_gateway.Prelude.{
  ℕ, Bool, not, Str, str, ◌==◌, Option, none, some, List, [], ◌∷◌, ◌++◌, if◌then◌else◌, is_empty,
  eqb,
}
use download_gateway.Adapters.Job.{Job, Status, JobView, AdoptedJob}
use download_gateway.Adapters.Client.{Qbittorrent}
use download_gateway.Adapters.Spec.{GoLib}
use download_gateway.Adapters.Failure.{
  Failure, status_error, wrapped, plain, Outcome, ok, fail, max_list_response,
}
use download_gateway.Adapters.FileName.{payload_file_name}
use download_gateway.Adapters.Http.{
  form, multipart, Response, Call, returns, raise, ◌>>=◌, ◌>>◌, proceed, attempt, lift, Decoder,
  new_status_error, decode_capped,
}
use download_gateway.Adapters.Qbittorrent.{Torrent, describe_tag, adopt_torrents}
use download_gateway.Adapters.Qbittorrent.Tag.{new_job_tag}
use download_gateway.Adapters.Qbittorrent.Calls.{
  Web, is_2xx, short_body, post, urlencoded, fetch, authed,
}

-- The fields of the form, in the order in which they are set.
unfoldable pub add_fields : Qbittorrent → Str → Job → List (Str × Str)
add_fields q tag j =
    let category = if is_empty j.category then q.category else j.category in
    (str "tags", tag)
    ∷ ((if is_empty j.save_path
          then []
          else (str "savepath", j.save_path) ∷ (str "autoTMM", str "false") ∷ [])
        ++ (if is_empty category then [] else (str "category", category) ∷ []))

-- What the answer to torrents/add says of the tag.
unfoldable pub added_tag : Str → Response → Outcome Str
added_tag tag resp =
    if not (eqb resp.status 200)
    then fail (status_error (str "qbittorrent add") resp.status (short_body resp))
    else if short_body resp == str "Fails."
    then fail (plain (str "qbittorrent add rejected the source"))
    else ok tag

unfoldable pub first_of : {A : Type 0} → List A → Option A
first_of [] = none
first_of (a ∷ as_) = some a

first_decoded : Outcome (List Torrent) → Outcome (Option Torrent)
unfolding first_of
first_decoded (fail f) = fail (wrapped (str "qbittorrent info decode: ") f)
first_decoded (ok list) = ok (first_of list)

-- What the answer to torrents/info says of the torrent with the tag.
unfoldable pub tag_answer : Decoder (List Torrent) → Response → Outcome (Option Torrent)
unfolding first_decoded
tag_answer decode resp =
    if not (eqb resp.status 200)
    then fail (new_status_error (str "qbittorrent info") resp)
    else first_decoded (decode_capped max_list_response decode resp.body)

-- One verb: nothing if it worked, else why not.
unfoldable pub verb_failure : Str → Outcome Response → Option Failure
verb_failure verb (fail f) = some f
verb_failure verb (ok resp) =
    if is_2xx resp.status then none else some (new_status_error (str "qbittorrent " ++ verb) resp)

module _ {W : Type 0} (lib : GoLib) (web : Web W) (q : Qbittorrent) where
  -- The request that torrents/add is: an upload, with the boundary's type, or a form.
  unfoldable pub send_add : Str → Job → Call W Response
  unfolding add_fields
  send_add tag j =
      if is_empty j.payload
      then post lib web q (str "/api/v2/torrents/add") urlencoded
          (form (add_fields q tag j ++ (str "urls", j.source) ∷ []))
      else post lib web q (str "/api/v2/torrents/add") (str "multipart/form-data") (
          multipart (add_fields q tag j) (payload_file_name j.payload_name j.title (str ".torrent"))
            j.payload)

  unfoldable pub add_tagged : Str → Job → Call W Str
  unfolding send_add added_tag
  add_tagged tag j = do resp ← authed lib web q (send_add tag j); lift (added_tag tag resp)

  -- Add
  unfoldable pub add : Job → Call W Str
  unfolding add_tagged
  add j w = add_tagged (new_job_tag (web.random w).0 (web.clock w)) j (web.random w).1

  -- byTag
  unfoldable pub by_tag : Str → Call W (Option Torrent)
  unfolding tag_answer
  by_tag tag = do
    resp ← authed lib web q (fetch lib web q (str "/api/v2/torrents/info") ((str "tag", tag) ∷ []))
    lift (tag_answer web.torrents resp)

  -- Describe
  unfoldable pub describe : Str → Call W JobView
  unfolding by_tag
  describe tag = do t ← by_tag tag; returns (describe_tag t)

  -- Status
  unfoldable pub status : Str → Call W Status
  unfolding describe
  status tag = do v ← describe tag; returns v.state

  remove_found : Option Torrent → Call W (Unit {0})
  remove_found none = returns tt
  remove_found (some t) = do
    resp ← authed lib web q (
        post lib web q (str "/api/v2/torrents/delete") urlencoded
          (form ((str "hashes", t.hash) ∷ (str "deleteFiles", str "false") ∷ [])))
    if not (eqb resp.status 200)
        then raise (new_status_error (str "qbittorrent delete") resp)
        else returns tt

  -- Remove
  unfoldable pub remove : Str → Call W (Unit {0})
  unfolding by_tag remove_found
  remove tag = do t ← by_tag tag; remove_found t

  after_verb : Option Failure → (Option Failure → Call W (Unit {0})) → Call W (Unit {0})
  after_verb none next = returns tt
  after_verb (some f) next = next (some f)

  last_error : Option Failure → Call W (Unit {0})
  last_error none = returns tt
  last_error (some f) = raise f

  -- The loop of control over the verbs, with its last error.
  unfoldable pub try_verbs : Str → List Str → Option Failure → Call W (Unit {0})
  unfolding last_error after_verb verb_failure
  try_verbs hash [] last = last_error last
  try_verbs hash (verb ∷ verbs) last = do
    r ← attempt (
        authed lib web q (
          post lib web q (str "/api/v2/torrents/" ++ verb) urlencoded
            (form ((str "hashes", hash) ∷ []))))
    after_verb (verb_failure verb r) (try_verbs hash verbs)

  controlled : Str → List Str → Option Torrent → Call W (Unit {0})
  unfolding try_verbs
  controlled tag verbs none = raise (plain (str "qbittorrent: no torrent for job " ++ tag))
  controlled tag verbs (some t) = try_verbs t.hash verbs none

  -- control
  unfoldable pub control : Str → List Str → Call W (Unit {0})
  unfolding by_tag controlled
  control tag verbs = do t ← by_tag tag; controlled tag verbs t

  -- Pause and Resume: the verb of version 5 first, then the older one.
  unfoldable pub pause : Str → Call W (Unit {0})
  unfolding control
  pause tag = control tag (str "stop" ∷ str "pause" ∷ [])

  unfoldable pub resume : Str → Call W (Unit {0})
  unfolding control
  resume tag = control tag (str "start" ∷ str "resume" ∷ [])

  -- Adopt
  unfoldable pub adopt : Call W (List AdoptedJob)
  adopt = do
    resp ← authed lib web q (fetch lib web q (str "/api/v2/torrents/info") [])
    if not (eqb resp.status 200)
        then raise (new_status_error (str "qbittorrent info") resp)
        else (do
          list ← lift (decode_capped max_list_response web.torrents resp.body)
          returns (adopt_torrents q.category list))
