-- ===== src/Adapters/Odownloader.antt =====
-- internal/adapters/odownloader.go: one job is a package of links.
pub mod Laws
pub mod Calls
use download_gateway.Prelude.{
  ℕ, Bool, true, false, not, ◌&&◌, ◌||◌, Str, str, ◌==◌, Option, none, some, List, [], ◌∷◌, ◌++◌,
  if◌then◌else◌, is_empty,
}
use download_gateway.Prelude.Int.{ℤ, pos, ◌+ℤ◌, wrap64}
use download_gateway.Adapters.Job.{Status, JobView, new_job_view, not_found_state}

pub record DownloadView : Type 0 where
  pub name : Str
  pub bytes_done : ℤ
  pub bytes_total : ℤ
  pub speed : ℤ
  pub state : Str
  pub message : Str
  pub output_path : Str

-- The branches of the switch on a link's state.
pub data LinkState : Type 0 where
  finished running failed pending : LinkState

unfoldable pub link_state : Str → LinkState
link_state s =
    if s == str "FINISHED"
    then finished
    else if s == str "RUNNING" || s == str "PAUSED" || s == str "WAITING_FOR_CHALLENGE"
    then running
    else if s == str "FAILED" || s == str "CANCELLED"
    then failed
    else pending

-- The variables of the loop over the links.
pub record Fold : Type 0 where
  pub view : JobView
  pub all_finished : Bool
  pub any_running : Bool
  pub any_failed : Bool
  pub any_started : Bool
  pub files : List Str

unfoldable pub begin_fold : Fold
begin_fold = record {
  view = new_job_view Status.queued;
  all_finished = true;
  any_running = false;
  any_failed = false;
  any_started = false;
  files = [];
}

unfoldable pub fold_view : JobView → DownloadView → JobView
fold_view v l = record v {
  bytes_done = wrap64 (v.bytes_done +ℤ l.bytes_done);
  bytes_total = wrap64 (v.bytes_total +ℤ l.bytes_total);
  speed_bps = wrap64 (v.speed_bps +ℤ l.speed);
  title = if is_empty v.title then l.name else v.title;
  message = if is_empty l.message then v.message else l.message;
  native_state = if is_empty v.native_state then l.state else v.native_state;
}

unfoldable pub fold_state : LinkState → Fold → Fold
fold_state finished f = record f { any_started = true }
fold_state running f = record f { all_finished = false; any_running = true; any_started = true }
fold_state failed f = record f { all_finished = false; any_failed = true }
fold_state pending f = record f { all_finished = false }

unfoldable pub fold_link : Fold → DownloadView → Fold
unfolding fold_view fold_state
fold_link f l = fold_state (link_state l.state) (record f {
  view = fold_view f.view l;
  files = if is_empty l.output_path then f.files else f.files ++ l.output_path ∷ [];
})

unfoldable pub fold_links : Fold → List DownloadView → Fold
fold_links f [] = f
fold_links f (l ∷ ls) = fold_links (fold_link f l) ls

-- The terminal rule.
unfoldable pub end_fold : Fold → JobView
end_fold f =
    if f.all_finished
    then record f.view { state = Status.completed; files = f.files }
    else if f.any_failed && not f.any_running
    then record f.view { state = Status.failed }
    else if f.any_started
    then record f.view { state = Status.downloading }
    else record f.view { state = Status.queued }

unfoldable pub fold_odl : List DownloadView → JobView
unfolding fold_links begin_fold end_fold
fold_odl [] = record (new_job_view Status.queued) { native_state = not_found_state }
fold_odl (l ∷ ls) = end_fold (fold_links begin_fold (l ∷ ls))
