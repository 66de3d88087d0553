-- ===== src/Server/Add/Asked.antt =====
-- cmd/server/main.go: the one call that an add makes of a client.
use download_gateway.Prelude.{
  ℕ, not, ◌&&◌, ◌||◌, Str, ◌==◌, Option, none, some, ◌≡◌, refl, if◌then◌else◌, is_empty, Bool-cases,
  inl, inr,
}
use download_gateway.Prelude.Int.{ℤ}
use download_gateway.Adapters.Job.{Job}
use download_gateway.Adapters.Client.{Adapter}
use download_gateway.Adapters.Registry.{
  Registry, Client, Leased, granted, unknown_client, client_draining, lease,
}
use download_gateway.Server.Jobs.{Jobs}
use download_gateway.Server.Budget.{admit_add, max_add_body}
use download_gateway.Server.Reply.{Decoded, Body, body, answered, decode_json}
use download_gateway.Server.Add.{
  AddRequest, AddAnswer, added, payload_unsupported, failed, AddReply, Gateway, add_id, job_of,
  refuses_payload, finish_add, leased_add, after_lease, add_request, add_body, admitted, handle_add,
}

-- The Add that handleAdd comes to: of which client, and with which job.
asked_leased : AddRequest → Leased → Option (Adapter × Job)
asked_leased req unknown_client = none
asked_leased req client_draining = none
asked_leased req (granted c) =
    if refuses_payload c req.payload then none else some (c.adapter, job_of req c)

unfoldable pub asked_request : AddRequest → Registry → Option (Adapter × Job)
unfolding asked_leased
asked_request req reg =
    if not (is_empty req.client) && not (is_empty req.adapter) && not (req.client == req.adapter)
    then none
    else if is_empty (add_id req) || (is_empty req.source && is_empty req.payload)
    then none
    else asked_leased req (lease (add_id req) reg).0

asked_body : Body AddRequest AddReply → Registry → Option (Adapter × Job)
unfolding asked_request
asked_body (answered reply) reg = none
asked_body (body req) reg = asked_request req reg

asked_admitted : Option (ℕ × ℕ) → Decoded AddRequest → Registry → Option (Adapter × Job)
unfolding asked_body
asked_admitted none req reg = none
asked_admitted (some reserved) req reg = asked_body (decode_json max_add_body req) reg

unfoldable pub asked_add : ℤ → Decoded AddRequest → Gateway → Option (Adapter × Job)
unfolding asked_admitted
asked_add length req g = asked_admitted (admit_add length g.body_in_flight) req g.reg

module _ (F : Type 0) (f h : Adapter → Job → AddAnswer) where
  -- The two clients answer the call alike, if there is one.
  unfoldable pub Agrees : Option (Adapter × Job) → Type 0
  Agrees none = Unit
  Agrees (some (ad, job)) = f ad job ≡ h ad job

  finish-same :
      (id : Str) (req : AddRequest) (c : Client) (answer : AddAnswer) (jobs : Jobs)
      → finish_add F f id req c answer jobs ≡ finish_add F h id req c answer jobs
  unfolding finish_add
  finish-same id req c (added job_id) jobs = refl
  finish-same id req c payload_unsupported jobs = refl
  finish-same id req c (failed message) jobs = refl

  leased-same :
      (id : Str) (req : AddRequest) (c : Client) (jobs : Jobs)
      → Agrees (asked_leased req (granted c))
      → leased_add F f id req c jobs ≡ leased_add F h id req c jobs
  unfolding leased_add asked_leased Agrees
  leased-same id req c jobs same = elim (Bool-cases (refuses_payload c req.payload)) [
    | inl no_ ↦ rw (no_, leased_add) refl
    | inr yes_ ↦
        rw (yes_, (rw (yes_, asked_leased) at same), leased_add)
          (finish-same id req c (h c.adapter (job_of req c)) jobs)
  ]

  lease-same :
      (id : Str) (req : AddRequest) (l : Leased × Registry) (g : Gateway)
      → Agrees (asked_leased req l.0)
      → after_lease F f id req l g ≡ after_lease F h id req l g
  unfolding after_lease
  lease-same id req (unknown_client, r) g same = refl
  lease-same id req (client_draining, r) g same = refl
  lease-same id req (granted c, r) g same = rw (leased-same id req c g.jobs same) refl

  request-same :
      (req : AddRequest) (g : Gateway)
      → Agrees (asked_request req g.reg)
      → add_request F f req g ≡ add_request F h req g
  unfolding add_request asked_request
  request-same req g same =
      elim (Bool-cases (
        not (is_empty req.client)
        && not (is_empty req.adapter)
        && not (req.client == req.adapter))) [
          | inl two ↦ rw (two, add_request) refl
          | inr one ↦
              elim (Bool-cases
                (is_empty (add_id req) || (is_empty req.source && is_empty req.payload))) [
                  | inl blank ↦ rw (one, blank, add_request) refl
                  | inr full ↦
                      rw (one, full, add_request)
                        (lease-same (add_id req) req (lease (add_id req) g.reg) g
                          (rw (one, full, asked_request) at same))
                ]
        ]

  body-same :
      (b : Body AddRequest AddReply) (g : Gateway)
      → Agrees (asked_body b g.reg)
      → add_body F f b g ≡ add_body F h b g
  unfolding add_body asked_body
  body-same (answered reply) g same = refl
  body-same (body req) g same = request-same req g same

  admitted-same :
      (a : Option (ℕ × ℕ)) (req : Decoded AddRequest) (g : Gateway)
      → Agrees (asked_admitted a req g.reg)
      → admitted F f a req g ≡ admitted F h a req g
  unfolding admitted asked_admitted
  admitted-same none req g same = refl
  admitted-same (some (in_flight, amount)) req g same =
      rw (body-same (decode_json max_add_body req) (record g { body_in_flight = in_flight }) same)
        refl

  -- An add depends on its client only through the answer to the one call that it comes to: where
  -- two ways to answer agree on that call, or none is made, the reply, the events and the gateway
  -- after it are the same.
  pub handle_add-asked :
      (length : ℤ) (req : Decoded AddRequest) (g : Gateway)
      → Agrees (asked_add length req g)
      → handle_add F f length req g ≡ handle_add F h length req g
  unfolding handle_add asked_add
  handle_add-asked length req g same = admitted-same (admit_add length g.body_in_flight) req g same
