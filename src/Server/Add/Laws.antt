-- ===== src/Server/Add/Laws.antt =====
-- An add as a sequence of the gateway's critical sections, and what it leaves behind.
use native.Mathlib.Omega.{arith}
use download_gateway.Prelude.Int.{ℤ}
use download_gateway.Prelude.{
  Option, none, ℕ, ◌≤◌, Str, ==_refl, some, List, [], ◌≡◌, ◌⊎◌, refl, Bool-cases, inl, inr,
}
use download_gateway.Prelude.Assoc
use download_gateway.Prelude.Assoc.{lookup-insert}
use download_gateway.Adapters.Job.{Job}
use download_gateway.Adapters.Client.{Adapter}
use download_gateway.Adapters.Spec.{GoLib}
use download_gateway.Adapters.Registry.{
  Registry, Client, Leased, granted, unknown_client, client_draining, lease,
}
use download_gateway.Server.Event.{Event}
use download_gateway.Server.Jobs.{Jobs, Tracked, job_key, new_tracked, track}
use download_gateway.Server.Budget.{admit_add, max_add_body}
use download_gateway.Server.Reply.{Decoded, Body, decode_json, Reply, error, json}
use download_gateway.Server.System.{add_job, Reach, here, next}
use download_gateway.Server.System.Runs.{system, under, is_held, lease_run}
use download_gateway.Server.Add.{
  AddRequest, AddAnswer, added, payload_unsupported, failed, AddReply, Gateway, job_of,
  refuses_payload, finish_add, leased_add, after_lease, add_body, admitted, handle_add,
}
use download_gateway.Server.Add.Cases.{body_cases}

module _ (lib : GoLib) (F : Type 0) (add : Adapter → Job → AddAnswer) where
  -- The jobs after an add: as before, or with the job of this client added.
  abbrev Tracks : Str → Jobs → Jobs → Type 0
  Tracks id jobs after =
      (after ≡ jobs) ⊎ ((t : Tracked) × (t.adapter ≡ id) × (after ≡ track t jobs))

  finish-Tracks :
      (id : Str) (req : AddRequest) (c : Client) (answer : AddAnswer) (jobs : Jobs)
      → Tracks id jobs (finish_add F add id req c answer jobs).2
  unfolding finish_add
  finish-Tracks id req c payload_unsupported jobs = inl refl
  finish-Tracks id req c (failed message) jobs = inl refl
  finish-Tracks id req c (added job_id) jobs =
      inr (new_tracked id c.type_name job_id req.title req.wanted_item_id, refl, refl)

  leased-Tracks :
      (id : Str) (req : AddRequest) (c : Client) (jobs : Jobs)
      → Tracks id jobs (leased_add F add id req c jobs).2
  unfolding leased_add
  leased-Tracks id req c jobs = elim (Bool-cases (refuses_payload c req.payload)) [
    | inl no_ ↦ rw (no_, leased_add) (inl refl)
    | inr ok_ ↦ rw (ok_, leased_add) (finish-Tracks id req c (add c.adapter (job_of req c)) jobs)
  ]

  -- Tracking, as a step under the lease.
  track_run :
      (id : Str) (r : Registry) (held : List Str) (jobs after : Jobs)
      → Tracks id jobs after
      → Reach lib (under id r held jobs) (under id r held after)
  track_run id r held jobs after (inl same) = rw same here
  track_run id r held jobs after (inr (t, own, tracked)) =
      rw tracked (next here (add_job (under id r held jobs) t (rw own (is_held id held))))

  after_steps :
      (id : Str) (req : AddRequest) (l : Leased × Registry) (g : Gateway) (held : List Str)
      → lease id g.reg ≡ l
      → Reach lib (system g held) (system (after_lease F add id req l g).2 held)
  unfolding after_lease
  after_steps id req (unknown_client, r) g held e = here
  after_steps id req (client_draining, r) g held e = here
  after_steps id req (granted c, r) g held e =
      let after = (leased_add F add id req c g.jobs).2 in
      lease_run lib id c r g held after e
        (track_run id r held g.jobs after (leased-Tracks id req c g.jobs))

  body_run :
      (b : Body AddRequest AddReply) (g : Gateway) (held : List Str)
      → Reach lib (system g held) (system (add_body F add b g).2 held)
  body_run b g held =
      body_cases F add (λ h. Reach lib (system g held) (system h held)) g here
        (λ id req. after_steps id req (lease id g.reg) g held refl) b

  admitted_run :
      (o : Option (ℕ × ℕ)) (req : Decoded AddRequest) (g : Gateway) (held : List Str)
      → Reach lib (system g held) (system (admitted F add o req g).2 held)
  unfolding admitted
  admitted_run none req g held = here
  admitted_run (some (after, amount)) req g held =
      body_run (decode_json max_add_body req) (record g { body_in_flight = after }) held

  -- Whatever the request and whatever the client answers, an add is a run of the gateway's steps
  -- that takes and gives back its lease; so all that holds in every reachable state holds after it.
  pub handle_add-Reach :
      (length : ℤ) (req : Decoded AddRequest) (g : Gateway) (held : List Str)
      → Reach lib (system g held) (system (handle_add F add length req g).2 held)
  unfolding handle_add
  handle_add-Reach length req g held = admitted_run (admit_add length g.body_in_flight) req g held

  abbrev pub Outcome :
      Str → AddRequest → Client → Jobs → Reply AddReply × List (Event F) × Jobs → Type 0
  Outcome id req c jobs r =
      ((job_id : Str) × (r.0
          ≡ json 202 (record { adapter = id; client = id; client_job_id = job_id }))
        × (Assoc.lookup (job_key id job_id) r.2
            ≡ some (new_tracked id c.type_name job_id req.title req.wanted_item_id))
        × (add c.adapter (job_of req c) ≡ added job_id))
      ⊎ ((code : ℕ) × (message : Str) × (r.0 ≡ error code message)
          × (r.1 ≡ [])
          × (r.2 ≡ jobs)
          × (400 ≤ code))

  finish-Outcome :
      (id : Str) (req : AddRequest) (c : Client) (answer : AddAnswer) (jobs : Jobs)
      → add c.adapter (job_of req c) ≡ answer
      → Outcome id req c jobs (finish_add F add id req c answer jobs)
  unfolding finish_add track new_tracked
  finish-Outcome id req c payload_unsupported jobs e = inr (400, _, refl, refl, refl, omega arith)
  finish-Outcome id req c (failed message) jobs e = inr (502, _, refl, refl, refl, omega arith)
  finish-Outcome id req c (added job_id) jobs e =
      inl (job_id, refl, rw (lookup-insert, ==_refl (job_key id job_id)) refl, e)

  -- While the lease is held: a 202 names the client and the job that the client took, which is now
  -- tracked under that name; any other answer is an error, emits nothing and leaves the jobs as
  -- they were.
  pub leased_add-Outcome :
      (id : Str) (req : AddRequest) (c : Client) (jobs : Jobs)
      → Outcome id req c jobs (leased_add F add id req c jobs)
  unfolding leased_add
  leased_add-Outcome id req c jobs = elim (Bool-cases (refuses_payload c req.payload)) [
    | inl no_ ↦ rw (no_, leased_add) (inr (400, _, refl, refl, refl, omega arith))
    | inr ok_ ↦
        rw (ok_, leased_add) (finish-Outcome id req c (add c.adapter (job_of req c)) jobs refl)
  ]
