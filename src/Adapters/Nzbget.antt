-- ===== src/Adapters/Nzbget.antt =====
-- internal/adapters/nzbget.go: queue and history entries, and what the calls make of them.
pub mod Laws
pub mod Upload
pub mod Json
pub mod Calls
pub mod Jobs
pub mod Info
use download_gateway.Prelude.{
  ℕ, ◌+◌, ◌^◌, Bool, true, false, not, ◌&&◌, ◌||◌, Str, str, ◌==◌, Option, none, some, List, [],
  ◌∷◌, ◌++◌, if◌then◌else◌, is_empty, eqb,
}
use download_gateway.Prelude.Int.{
  ℤ, pos, negsuc, pos_part, neg_part, ◌+ℤ◌, wrap64, ltb_ℤ, leb_ℤ, scale, low32, quot,
}
use download_gateway.Prelude.Strings.{has_prefix, atoi, itoa_ℤ}
use download_gateway.Adapters.Job.{Status, JobView, AdoptedJob, new_job_view, not_found_state}
use download_gateway.Adapters.Client.{Nzbget}
use download_gateway.Adapters.Failure.{Outcome, ok, fail, wrapped}

pub record Group : Type 0 where
  pub nzb_id : ℤ
  pub nzb_name : Str
  pub status : Str
  pub category : Str
  pub file_size_mb : ℤ
  pub file_size_lo : ℤ
  pub file_size_hi : ℤ
  pub downloaded_size_mb : ℤ
  pub downloaded_size_lo : ℤ
  pub downloaded_size_hi : ℤ
  pub remaining_size_mb : ℤ
  pub remaining_size_lo : ℤ
  pub remaining_size_hi : ℤ
  pub download_rate : ℤ
  pub health : ℤ

pub record History : Type 0 where
  pub nzb_id : ℤ
  pub name : Str
  pub status : Str
  pub dest_dir : Str
  pub file_size_mb : ℤ

-- hi<<32 | (lo & 0xFFFFFFFF): the two parts have no bit in common.
unfoldable pub exact64 : ℤ → ℤ → ℤ → ℤ
exact64 lo hi mb =
    let v = wrap64 (wrap64 (scale (2 ^ 32) hi) +ℤ pos (low32 lo)) in
    if ltb_ℤ (pos 0) v then v else wrap64 (scale (2 ^ 20) mb)

unfoldable pub fold_group : Group → JobView
unfolding exact64
fold_group g =
    record (new_job_view (
      if g.status == str "QUEUED" || g.status == str "PAUSED"
      then Status.queued
      else Status.downloading)) {
        title = g.nzb_name;
        native_state = g.status;
        bytes_done = exact64 g.downloaded_size_lo g.downloaded_size_hi g.downloaded_size_mb;
        bytes_total = exact64 g.file_size_lo g.file_size_hi g.file_size_mb;
        speed_bps = g.download_rate;
        health = g.health;
        eta_sec =
            if ltb_ℤ (pos 0) g.download_rate
            then quot (exact64 g.remaining_size_lo g.remaining_size_hi g.remaining_size_mb)
                g.download_rate
            else negsuc 0;
      }

unfoldable pub history_view : History → Status → JobView
history_view h s = record (new_job_view s) {
  title = h.name;
  native_state = h.status;
  bytes_total = wrap64 (scale (2 ^ 20) h.file_size_mb);
}

unfoldable pub fold_history : History → JobView
unfolding history_view
fold_history h =
    if has_prefix h.status (str "SUCCESS")
    then record (history_view h Status.completed) {
      bytes_done = wrap64 (scale (2 ^ 20) h.file_size_mb);
      files = if is_empty h.dest_dir then [] else h.dest_dir ∷ [];
    }
    else if has_prefix h.status (str "DELETED")
    then record (history_view h Status.failed) { message = str "removed: " ++ h.status }
    else record (history_view h Status.failed) { message = str "nzbget: " ++ h.status }

abbrev pub eq_ℤ : ℤ → ℤ → Bool
eq_ℤ a b = eqb (pos_part a + neg_part b) (pos_part b + neg_part a)

unfoldable pub find_group : ℤ → List Group → Option Group
find_group want [] = none
find_group want (g ∷ gs) = if eq_ℤ g.nzb_id want then some g else find_group want gs

unfoldable pub find_history : ℤ → List History → Option History
find_history want [] = none
find_history want (h ∷ hs) = if eq_ℤ h.nzb_id want then some h else find_history want hs

unfoldable pub in_groups : ℤ → Outcome (List Group) → Option Group
unfolding find_group
in_groups want (fail f) = none
in_groups want (ok gs) = find_group want gs

unfoldable pub in_history : ℤ → Outcome (List History) → Option History
unfolding find_history
in_history want (fail f) = none
in_history want (ok hs) = find_history want hs

-- Both lists were asked and the job is in neither of those that came back.
unfoldable pub absent : Str → Outcome (List Group) → Outcome (List History) → Outcome JobView
absent id (fail f) history = fail (wrapped (str "nzbget describe " ++ id ++ str ": ") f)
absent id (ok gs) (fail f) = fail (wrapped (str "nzbget describe " ++ id ++ str ": ") f)
absent id (ok gs) (ok hs) =
    ok (record (new_job_view Status.queued) { native_state = not_found_state })

-- Describe after the queue did not have the job.
unfoldable pub describe_history :
    Str → Outcome (List Group) → Outcome (List History) → Outcome JobView
unfolding in_history absent
describe_history id groups history = elim (in_history (atoi id).0 history) [
  | some h ↦ ok (fold_history h)
  | none ↦ absent id groups history
]

-- Describe, of what the two calls answered.
unfoldable pub describe : Str → Outcome (List Group) → Outcome (List History) → Outcome JobView
unfolding in_groups describe_history
describe id groups history = elim (in_groups (atoi id).0 groups) [
  | some g ↦ ok (fold_group g)
  | none ↦ describe_history id groups history
]

unfoldable pub adopt_groups : Str → List Group → List AdoptedJob
adopt_groups category [] = []
adopt_groups category (g ∷ gs) =
    let rest = adopt_groups category gs in
    if g.category == category
    then record { client_job_id = itoa_ℤ g.nzb_id; title = g.nzb_name } ∷ rest
    else rest

adopt_answer : Str → Outcome (List Group) → Outcome (List AdoptedJob)
unfolding adopt_groups
adopt_answer category (fail f) = fail f
adopt_answer category (ok gs) = ok (adopt_groups category gs)

-- Adopt: without a category nothing is owned.
unfoldable pub adopt : Nzbget → Outcome (List Group) → Outcome (List AdoptedJob)
unfolding adopt_answer
adopt n groups = if is_empty n.category then ok [] else adopt_answer n.category groups
