-- ===== src/Server/Add/Cases.antt =====
-- How an add ends: before it takes a lease, or with one.
use download_gateway.Prelude.{not, ◌&&◌, ◌||◌, Str, ◌==◌, Bool-cases, inl, inr, is_empty}
use download_gateway.Adapters.Job.{Job}
use download_gateway.Adapters.Client.{Adapter}
use download_gateway.Adapters.Registry.{lease}
use download_gateway.Server.Reply.{Body, body, answered}
use download_gateway.Server.Add.{
  AddRequest, AddAnswer, AddReply, Gateway, add_id, after_lease, add_request, add_body,
}

-- What holds of the gateway itself, and of it after any add under a lease, holds after the body of
-- an add.
module _ (F : Type 0) (add : Adapter → Job → AddAnswer) (P : Gateway → Type 0) (g : Gateway)
    (unchanged : P g)
    (leased : (id : Str) (req : AddRequest)
      → P (after_lease F add id req (lease id g.reg) g).2) where
  request_cases : (req : AddRequest) → P (add_request F add req g).2
  unfolding add_request
  request_cases req =
      elim (Bool-cases (
        not (is_empty req.client)
        && not (is_empty req.adapter)
        && not (req.client == req.adapter))) [
          | inl differ ↦ rw (differ, add_request) unchanged
          | inr agree ↦
              elim (Bool-cases
                (is_empty (add_id req) || (is_empty req.source && is_empty req.payload))) [
                  | inl missing ↦ rw (agree, missing, add_request) unchanged
                  | inr given ↦ rw (agree, given, add_request) (leased (add_id req) req)
                ]
        ]

  pub body_cases : (b : Body AddRequest AddReply) → P (add_body F add b g).2
  unfolding add_body
  body_cases (answered reply) = unchanged
  body_cases (body req) = request_cases req
