-- ===== src/Tests/Sessions.antt =====
-- Whole requests and cycles.
use download_gateway.Prelude.{str, [], ◌≡◌}
use download_gateway.Prelude.Int.{ℤ, negsuc}
use download_gateway.Adapters.Job.{Job}
use download_gateway.Adapters.Client.{Adapter}
use download_gateway.Server.Reply.{value}
use download_gateway.Server.Add.{AddRequest, AddAnswer, added, Gateway, handle_add}
use download_gateway.Server.Add.Release.{handle_add-released}
use download_gateway.Tests.Data.{registry, jobs}

abbrev download : AddRequest
download = record {
  adapter = [];
  client = str "nz";
  source = str "s";
  title = str "t";
  save_path = [];
  wanted_item_id = [];
  payload = [];
  payload_name = [];
  category = [];
}

abbrev accept_job : Adapter → Job → AddAnswer
accept_job ad j = added (str "7")

abbrev running : Gateway
running = record { reg = registry; jobs = jobs; body_in_flight = 5 }

handle_add-released_example :
    (handle_add ℤ accept_job (negsuc 0) (value download) running).2.body_in_flight ≡ 5
handle_add-released_example = handle_add-released ℤ accept_job (negsuc 0) (value download) running
