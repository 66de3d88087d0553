-- ===== src/Adapters/Job.antt =====
-- internal/adapters/adapters.go: the job and its snapshot.
use download_gateway.Prelude.{Str, str, List, []}
use download_gateway.Prelude.Int.{ℤ, pos, negsuc}

pub record Job : Type 0 where
  pub id : Str
  pub source : Str
  pub save_path : Str
  pub title : Str
  pub category : Str
  pub payload : Str
  pub payload_name : Str

-- `blank` is Go's zero value "", which no adapter reports.
pub data Status : Type 0 where
  queued downloading completed failed : Status

abbrev pub status_text : Status → Str
status_text Status.queued = str "queued"
status_text Status.downloading = str "downloading"
status_text Status.completed = str "completed"
status_text Status.failed = str "failed"

pub record JobView : Type 0 where
  pub state : Status
  pub native_state : Str
  pub title : Str
  pub bytes_done : ℤ
  pub bytes_total : ℤ
  pub speed_bps : ℤ
  pub eta_sec : ℤ
  pub files : List Str
  pub message : Str
  pub seeders : ℤ
  pub leechers : ℤ
  pub health : ℤ

abbrev pub not_found_state : Str
not_found_state = str "not-found"

-- Every caller sets the state before it returns the view.
abbrev pub new_job_view : Status → JobView
new_job_view s = record {
  state = s;
  native_state = [];
  title = [];
  bytes_done = pos 0;
  bytes_total = pos 0;
  speed_bps = pos 0;
  eta_sec = negsuc 0;
  files = [];
  message = [];
  seeders = negsuc 0;
  leechers = negsuc 0;
  health = negsuc 0;
}

pub record AdoptedJob : Type 0 where
  pub client_job_id : Str
  pub title : Str
