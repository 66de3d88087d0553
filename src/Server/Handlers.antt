-- ===== src/Server/Handlers.antt =====
-- cmd/server/main.go: removing, describing, pausing and listing jobs, and the probes.
use download_gateway.Prelude.{
  ℕ, Bool, true, false, not, ◌||◌, Str, str, ◌==◌, Option, none, some, List, [], ◌++◌,
  if◌then◌else◌, map,
}
use download_gateway.Prelude.Int.{ℤ}
use download_gateway.Prelude.Assoc
use download_gateway.Adapters.Job.{status_text, JobView, not_found_state}
use download_gateway.Adapters.Client.{Adapter, nzbget, qbittorrent, odownloader}
use download_gateway.Adapters.Registry
use download_gateway.Adapters.Registry.{Registry, Client, active}
use download_gateway.Server.Event.{Float64}
use download_gateway.Server.Jobs.{Tracked, job_key, untrack, snapshot}
use download_gateway.Server.Poll.{title_of, pct, opt_int64, opt_int32, opt_count}
use download_gateway.Server.Reply.{Reply, error, json, no_content}
use download_gateway.Server.Add.{Gateway}

-- A call of a client: its value, or the error as PublicError renders it.
pub data Call (A : Type 0) : Type 0 where
  done : A → Call A
  failed : Str → Call A

unfoldable pub after_remove : Str → Str → Call (Unit {0}) → Gateway → Reply (Unit {0}) × Gateway
after_remove client id (failed message) g = (error 502 message, g)
after_remove client id (done u) g = (no_content, record g { jobs = untrack client id g.jobs })

-- handleRemove
unfoldable pub handle_remove :
    (Adapter → Str → Call (Unit {0})) → Str → Str → Gateway → Reply (Unit {0}) × Gateway
unfolding after_remove
handle_remove remove client id g = elim (Registry.get client g.reg) [
  | none ↦ (error 404 (str "no such client"), g)
  | some ad ↦ after_remove client id (remove ad id) g
]

pub record JobDto (F : Type 0) : Type 0 where
  pub adapter : Str
  pub client_job_id : Str
  pub wanted_item_id : Str
  pub title : Str
  pub state : Str
  pub native_state : Str
  pub progress_pct : F
  pub downloaded : ℤ
  pub size_bytes : Option ℤ
  pub speed_bps : ℤ
  pub eta_sec : Option ℤ
  pub seeders : Option ℤ
  pub leechers : Option ℤ
  pub health : Option ℤ

-- The body of an answer about one job.
pub data JobReply (F : Type 0) : Type 0 where
  found : JobDto F → List Str → Str → JobReply F
  not_known : Str → Str → JobReply F

module _ (fl : Float64) where
  open fl use {F}

  unfoldable pub list_dto : Tracked → JobDto F
  unfolding title_of
  list_dto t =
      let v = t.view in
      record {
        adapter = t.adapter;
        client_job_id = t.client_job_id;
        wanted_item_id = t.wanted_item_id;
        title = title_of t v;
        state = status_text t.last;
        native_state = v.native_state;
        progress_pct = pct fl v.bytes_done v.bytes_total;
        downloaded = v.bytes_done;
        size_bytes = opt_int64 v.bytes_total;
        speed_bps = v.speed_bps;
        eta_sec = opt_int32 v.eta_sec;
        seeders = opt_count v.seeders;
        leechers = opt_count v.leechers;
        health = opt_count v.health;
      }

  -- handleList
  unfoldable pub handle_list : Gateway → List (JobDto F)
  unfolding list_dto
  handle_list g = map list_dto (snapshot g.jobs)

  -- The answer before the tracked job is looked up.
  unfoldable pub describe_dto : Str → Str → JobView → JobDto F
  describe_dto client id v = record {
    adapter = client;
    client_job_id = id;
    wanted_item_id = [];
    title = v.title;
    state = status_text v.state;
    native_state = v.native_state;
    progress_pct = pct fl v.bytes_done v.bytes_total;
    downloaded = v.bytes_done;
    size_bytes = opt_int64 v.bytes_total;
    speed_bps = v.speed_bps;
    eta_sec = opt_int32 v.eta_sec;
    seeders = opt_count v.seeders;
    leechers = opt_count v.leechers;
    health = opt_count v.health;
  }

  with_tracked : JobView → Option Tracked → JobDto F → JobDto F
  unfolding title_of
  with_tracked v none d = d
  with_tracked v (some t) d = record d { wanted_item_id = t.wanted_item_id; title = title_of t v }

  unfoldable pub described : Str → Str → Call JobView → Gateway → Reply (JobReply F)
  unfolding with_tracked describe_dto
  described client id (failed message) g = error 502 message
  described client id (done v) g =
      if v.native_state == not_found_state
      then json 404 (not_known client id)
      else json 200 (
          found
            (with_tracked v (Assoc.lookup (job_key client id) g.jobs) (describe_dto client id v))
            v.files v.message)

  -- handleDescribe
  unfoldable pub handle_describe :
      (Adapter → Str → Call JobView) → Str → Str → Gateway → Reply (JobReply F)
  unfolding described
  handle_describe describe client id g = elim (Registry.get client g.reg) [
    | none ↦ error 404 (str "no such client")
    | some ad ↦ described client id (describe ad id) g
  ]

pub data Action : Type 0 where
  pause resume : Action

abbrev pub action_text : Action → Str
action_text pause = str "pause"
action_text resume = str "resume"

-- Which adapters implement Controller.
unfoldable pub can_control : Adapter → Bool
can_control (nzbget n) = true
can_control (qbittorrent q) = true
can_control (odownloader o) = false

unfoldable pub after_control : Call (Unit {0}) → Reply (Unit {0})
after_control (failed message) = error 502 message
after_control (done u) = no_content

-- handleControl
unfoldable pub handle_control :
    (Action → Adapter → Str → Call (Unit {0})) → Action → Str → Str → Registry → Reply (Unit {0})
unfolding after_control can_control
handle_control control action client id reg = elim (Registry.get client reg) [
  | none ↦ error 404 (str "no such client")
  | some ad ↦
      if can_control ad
      then after_control (control action ad id)
      else error 501 (client ++ str " cannot " ++ action_text action)
]

-- handleReady: the publisher is up and the process is not stopping.
unfoldable pub handle_ready : Bool → Bool → ℕ
handle_ready stopping publisher_ready = if stopping || not publisher_ready then 503 else 200
