-- ===== src/Server/Add.antt =====
-- cmd/server/main.go: POST /api/v1/downloads.
pub mod Laws
pub mod Release
pub mod Asked
pub mod Cases
pub mod Clients
use download_gateway.Prelude.{
  ℕ, ◌+◌, ◌-◌, Bool, true, false, not, ◌&&◌, ◌||◌, Str, str, ◌==◌, Option, none, some, List, [],
  ◌∷◌, ◌++◌, if◌then◌else◌, is_empty,
}
use download_gateway.Prelude.Int.{ℤ}
use download_gateway.Adapters.Job.{Job}
use download_gateway.Adapters.Client.{Adapter}
use download_gateway.Adapters.Spec.{lookup_type}
use download_gateway.Adapters.Registry.{
  Registry, Client, Leased, granted, unknown_client, client_draining, lease, release,
}
use download_gateway.Server.Event.{Started, Event, started}
use download_gateway.Server.Jobs.{Jobs, Tracked, new_tracked, track}
use download_gateway.Server.Budget.{admit_add, release_add, max_add_body}
use download_gateway.Server.Reply.{Reply, error, json, Decoded, Body, body, answered, decode_json}

pub record AddRequest : Type 0 where
  pub adapter : Str
  pub client : Str
  pub source : Str
  pub title : Str
  pub save_path : Str
  pub wanted_item_id : Str
  pub payload : Str
  pub payload_name : Str
  pub category : Str

-- What Adapter.Add answers: the job's id, ErrPayloadUnsupported, or another error as PublicError
-- renders it.
pub data AddAnswer : Type 0 where
  added : Str → AddAnswer
  payload_unsupported : AddAnswer
  failed : Str → AddAnswer

-- The body of 202.
pub record AddReply : Type 0 where
  pub adapter : Str
  pub client : Str
  pub client_job_id : Str

-- The state of the gateway that requests change.
pub record Gateway : Type 0 where
  pub reg : Registry
  pub jobs : Jobs
  pub body_in_flight : ℕ

unfoldable pub add_id : AddRequest → Str
add_id req = if is_empty req.client then req.adapter else req.client

unfoldable pub refuses_payload : Client → Str → Bool
refuses_payload c payload = elim (lookup_type c.type_name) [
  | none ↦ false
  | some ti ↦ not (is_empty payload) && not ti.accepts_payload
]

abbrev pub no_payload : Client → Str
no_payload c = c.type_name ++ str " does not accept a payload; send a source link"

unfoldable pub job_of : AddRequest → Client → Job
job_of req c = record {
  id = req.wanted_item_id;
  source = req.source;
  save_path = if is_empty req.save_path then c.save_path else req.save_path;
  title = req.title;
  category = if is_empty req.category then c.category else req.category;
  payload = req.payload;
  payload_name = req.payload_name;
}

module _ (F : Type 0) (add : Adapter → Job → AddAnswer) where
  -- After Adapter.Add: what is answered and emitted, and the jobs.
  unfoldable pub finish_add :
      Str → AddRequest → Client → AddAnswer → Jobs → Reply AddReply × List (Event F) × Jobs
  unfolding track new_tracked
  finish_add id req c payload_unsupported jobs = (error 400 (no_payload c), [], jobs)
  finish_add id req c (failed message) jobs = (error 502 message, [], jobs)
  finish_add id req c (added job_id) jobs = (
    json 202 (record { adapter = id; client = id; client_job_id = job_id }),
    started (record {
      client_id = job_id;
      adapter = id;
      client_type = c.type_name;
      wanted_item_id = req.wanted_item_id;
      title = req.title;
    })
        ∷ [],
    track (new_tracked id c.type_name job_id req.title req.wanted_item_id) jobs,
  )

  -- While the lease is held.
  unfoldable pub leased_add :
      Str → AddRequest → Client → Jobs → Reply AddReply × List (Event F) × Jobs
  unfolding finish_add refuses_payload job_of
  leased_add id req c jobs =
      if refuses_payload c req.payload
      then (error 400 (no_payload c), [], jobs)
      else finish_add id req c (add c.adapter (job_of req c)) jobs

  -- What Lease answered, with the registry that it left; the release is deferred.
  pub after_lease :
      Str → AddRequest → Leased × Registry → Gateway → Reply AddReply × List (Event F) × Gateway
  unfolding leased_add
  after_lease id req (unknown_client, r) g = (error 404 (str "no such client: " ++ id), [], g)
  after_lease id req (client_draining, r) g =
      (error 409 (str "client " ++ id ++ str " was removed and accepts no new downloads"), [], g)
  after_lease id req (granted c, r) g =
      let (reply, events, jobs) = leased_add id req c g.jobs in
      (reply, events, record g { reg = release id r; jobs = jobs })

  unfoldable pub add_request : AddRequest → Gateway → Reply AddReply × List (Event F) × Gateway
  unfolding after_lease add_id
  add_request req g =
      let id = add_id req in
      if not (is_empty req.client) && not (is_empty req.adapter) && not (req.client == req.adapter)
      then (error 400 (str "client and adapter name different clients"), [], g)
      else if is_empty id || (is_empty req.source && is_empty req.payload)
      then (error 400 (str "client (or adapter) and source or payload_b64 are required"), [], g)
      else after_lease id req (lease id g.reg) g

  pub add_body : Body AddRequest AddReply → Gateway → Reply AddReply × List (Event F) × Gateway
  unfolding add_request
  add_body (answered reply) g = (reply, [], g)
  add_body (body req) g = add_request req g

  admitted :
      Option (ℕ × ℕ) → Decoded AddRequest → Gateway → Reply AddReply × List (Event F) × Gateway
  unfolding add_body
  admitted none req g = (error 429 (str "too many large adds in progress; retry shortly"), [], g)
  admitted (some (in_flight, amount)) req g =
      let (reply, events, h) =
        add_body (decode_json max_add_body req) (record g { body_in_flight = in_flight }) in
      (reply, events, record h { body_in_flight = release_add amount h.body_in_flight })

  -- handleAdd, given the declared length and the decoded body.
  unfoldable pub handle_add :
      ℤ → Decoded AddRequest → Gateway → Reply AddReply × List (Event F) × Gateway
  unfolding admitted
  handle_add length req g = admitted (admit_add length g.body_in_flight) req g
