-- ===== src/Adapters/Backends.antt =====
-- internal/adapters/adapters.go: the interfaces of the adapters, over a state W for all the
-- clients.
use download_gateway.Prelude.{Str, Option, none, some, List}
use download_gateway.Adapters.Job.{Job, JobView, AdoptedJob}
use download_gateway.Adapters.Client.{Adapter, nzbget, qbittorrent, odownloader}
use download_gateway.Adapters.Spec.{GoLib}
use download_gateway.Adapters.Http.{Call}
use download_gateway.Adapters.Report.{ClientStatus}
use download_gateway.Adapters.Nzbget.Calls.{Endpoint}
use download_gateway.Adapters.Nzbget.Info as Nzbget
use download_gateway.Adapters.Nzbget.Jobs as NzbgetJobs
use download_gateway.Adapters.Odownloader.Calls.{Daemon}
use download_gateway.Adapters.Odownloader.Calls as Odownloader
use download_gateway.Adapters.Qbittorrent.Calls.{Web}
use download_gateway.Adapters.Qbittorrent.Info as Qbittorrent
use download_gateway.Adapters.Qbittorrent.Jobs as QbittorrentJobs

-- What the calls of each type of adapter go through.
pub record Backends (W : Type 0) : Type 0 where
  pub lib : GoLib
  pub rpc : Endpoint W
  pub web : Web W
  pub daemon : Daemon W

module _ {W : Type 0} (b : Backends W) where
  -- Prober, which every adapter implements.
  unfoldable pub probe : Adapter → Call W Str
  probe (nzbget n) = Nzbget.probe b.lib b.rpc n
  probe (qbittorrent q) = Qbittorrent.probe b.lib b.web q
  probe (odownloader o) = Odownloader.probe b.daemon o

  -- Reporter, which the ODownloader does not implement.
  unfoldable pub reporter : Adapter → Option (W → ClientStatus × W)
  reporter (nzbget n) = some (Nzbget.client_status b.lib b.rpc n)
  reporter (qbittorrent q) = some (Qbittorrent.client_status b.lib b.web q)
  reporter (odownloader o) = none

  -- The methods of Adapter.
  unfoldable pub add : Adapter → Job → Call W Str
  add (nzbget n) = NzbgetJobs.add b.lib b.rpc n
  add (qbittorrent q) = QbittorrentJobs.add b.lib b.web q
  add (odownloader o) = Odownloader.add b.daemon o

  unfoldable pub describe : Adapter → Str → Call W JobView
  describe (nzbget n) = NzbgetJobs.describe_job b.lib b.rpc n
  describe (qbittorrent q) = QbittorrentJobs.describe b.lib b.web q
  describe (odownloader o) = Odownloader.describe b.daemon o

  unfoldable pub remove : Adapter → Str → Call W (Unit {0})
  remove (nzbget n) = NzbgetJobs.remove b.lib b.rpc n
  remove (qbittorrent q) = QbittorrentJobs.remove b.lib b.web q
  remove (odownloader o) = Odownloader.remove b.daemon o

  -- Controller, which the ODownloader does not implement.
  unfoldable pub pauser : Adapter → Option (Str → Call W (Unit {0}))
  pauser (nzbget n) = some (NzbgetJobs.pause b.lib b.rpc n)
  pauser (qbittorrent q) = some (QbittorrentJobs.pause b.lib b.web q)
  pauser (odownloader o) = none

  unfoldable pub resumer : Adapter → Option (Str → Call W (Unit {0}))
  resumer (nzbget n) = some (NzbgetJobs.resume b.lib b.rpc n)
  resumer (qbittorrent q) = some (QbittorrentJobs.resume b.lib b.web q)
  resumer (odownloader o) = none

  -- Rehydrator, which the ODownloader does not implement.
  unfoldable pub adopter : Adapter → Option (Call W (List AdoptedJob))
  adopter (nzbget n) = some (NzbgetJobs.adopt_jobs b.lib b.rpc n)
  adopter (qbittorrent q) = some (QbittorrentJobs.adopt b.lib b.web q)
  adopter (odownloader o) = none
