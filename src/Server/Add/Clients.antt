-- ===== src/Server/Add/Clients.antt =====
-- An add changes no client.
use download_gateway.Prelude.{ℕ, Str, Option, none, some, ◌≡◌, refl}
use download_gateway.Prelude.Int.{ℤ}
use download_gateway.Adapters.Job.{Job}
use download_gateway.Adapters.Client.{Adapter}
use download_gateway.Adapters.Registry.{
  Registry, Leased, granted, unknown_client, client_draining, lease,
}
use download_gateway.Adapters.Registry.Leases.{granted_clients}
use download_gateway.Server.Budget.{admit_add, max_add_body}
use download_gateway.Server.Reply.{Decoded, decode_json}
use download_gateway.Server.Add.{AddRequest, AddAnswer, Gateway, after_lease, admitted, handle_add}
use download_gateway.Server.Add.Cases.{body_cases}

module _ (F : Type 0) (add : Adapter → Job → AddAnswer) where
  leased_clients :
      (id : Str) (req : AddRequest) (l : Leased × Registry) (g : Gateway)
      → lease id g.reg ≡ l
      → (after_lease F add id req l g).2.reg.clients ≡ g.reg.clients
  unfolding after_lease
  leased_clients id req (unknown_client, r) g e = refl
  leased_clients id req (client_draining, r) g e = refl
  leased_clients id req (granted c, r) g e = granted_clients id g.reg r c e

  admitted_clients :
      (o : Option (ℕ × ℕ)) (req : Decoded AddRequest) (g : Gateway)
      → (admitted F add o req g).2.reg.clients ≡ g.reg.clients
  unfolding admitted
  admitted_clients none req g = refl
  admitted_clients (some (in_flight, amount)) req g =
      let h = record g { body_in_flight = in_flight } in
      body_cases F add (λ k. k.reg.clients ≡ g.reg.clients) h refl
        (λ id r. leased_clients id r (lease id h.reg) h refl) (decode_json max_add_body req)

  pub handle_add-clients :
      (length : ℤ) (req : Decoded AddRequest) (g : Gateway)
      → (handle_add F add length req g).2.reg.clients ≡ g.reg.clients
  unfolding handle_add
  handle_add-clients length req g = admitted_clients (admit_add length g.body_in_flight) req g
