-- ===== src/Adapters/Jdownloader.antt =====
-- internal/adapters/jdownloader.go: the stub of an adapter, which asks no client.
use download_gateway.Prelude.{Str, str, [], ◌++◌, ◌≡◌, refl}
use download_gateway.Prelude.Int.{pos, negsuc}
use download_gateway.Adapters.Job.{Job, Status, JobView}
use download_gateway.Adapters.Http.{Call, returns, ◌>>=◌}
use download_gateway.Adapters.Failure.{ok}

pub record Jdownloader : Type 0 where
  pub base_url : Str
  pub username : Str
  pub password : Str

-- Name()
unfoldable pub name : Jdownloader → Str
name j = str "jdownloader"

module _ {W : Type 0} (j : Jdownloader) where
  unfoldable pub add : Job → Call W Str
  add job = returns (str "stub-" ++ job.id)

  unfoldable pub status : Str → Call W Status
  status id = returns Status.queued

  -- A literal, not NewJobView: the counts are 0 and not unknown.
  unfoldable pub describe : Str → Call W JobView
  describe id = returns (record {
    state = Status.queued;
    native_state = [];
    title = [];
    bytes_done = pos 0;
    bytes_total = pos 0;
    speed_bps = pos 0;
    eta_sec = negsuc 0;
    files = [];
    message = [];
    seeders = pos 0;
    leechers = pos 0;
    health = pos 0;
  })

  unfoldable pub remove : Str → Call W (Unit {0})
  remove id = returns tt

-- A job that was added stays queued, whatever is done to it.
status-add :
    {W : Type 0} (j : Jdownloader) (job : Job) (w : W)
    → (add j job >>= status j) w ≡ (ok Status.queued, w)
unfolding add status
status-add j job w = refl
