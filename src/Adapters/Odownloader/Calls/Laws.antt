-- ===== src/Adapters/Odownloader/Calls/Laws.antt =====
-- What an answer of Describe rests on.
use download_gateway.Prelude.{◌/◌, Str, List, ◌≡◌, refl, arith}
use download_gateway.Adapters.Job.{JobView}
use download_gateway.Adapters.Client.{Odownloader}
use download_gateway.Adapters.Failure.{Outcome, ok, fail, max_list_response}
use download_gateway.Adapters.Http.{Response, lift, Decoder, decode_capped}
use download_gateway.Adapters.Http.Laws.{>>=-eq-ok}
use download_gateway.Adapters.Odownloader.{DownloadView, fold_odl}
use download_gateway.Adapters.Odownloader.Calls.{
  Daemon, folded, describe_answer, describe_call, describe,
}

folded-eq-ok :
    (r : Outcome (List DownloadView)) (v : JobView)
    → folded r ≡ ok v
    → (links : List DownloadView) × (r ≡ ok links) × (v ≡ fold_odl links)
unfolding folded
folded-eq-ok (ok links) v h = (links, refl, cc)
folded-eq-ok (fail f) v h = absurd (cc)

describe_answer-eq-ok :
    (decode : Decoder (List DownloadView)) (resp : Response) (v : JobView)
    → describe_answer decode resp ≡ ok v
    → (resp.status / 100 ≡ 2) × (folded (decode_capped max_list_response decode resp.body) ≡ ok v)
unfolding describe_answer
describe_answer-eq-ok decode resp v h = ground arith

-- Describe succeeds only on an answer of the 200s that decodes, and gives the fold of its links: that
-- a package is not found is said only of a daemon that listed no link of it.
pub describe-folds :
    {W : Type 0} (d : Daemon W) (o : Odownloader) (package_id : Str) (w : W) (v : JobView)
    → (describe d o package_id w).0 ≡ ok v
    → (resp : Response) × (links : List DownloadView) × ((describe_call d o package_id w).0
        ≡ ok resp)
      × (resp.status / 100 ≡ 2)
      × (decode_capped max_list_response d.page resp.body ≡ ok links)
      × (v ≡ fold_odl links)
unfolding describe
describe-folds d o package_id w v h =
    let (resp, came, after) =
      >>=-eq-ok (describe_call d o package_id) (λ resp. lift (describe_answer d.page resp)) w v h in
    let (success, decoding) = describe_answer-eq-ok d.page resp v after in
    let (links, decoded, same) = folded-eq-ok _ v decoding in
    (resp, links, came, success, decoded, same)
