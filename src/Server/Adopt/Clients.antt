-- ===== src/Server/Adopt/Clients.antt =====
-- An adoption changes no client.
use download_gateway.Prelude.{Str, Option, List, ◌≡◌, refl, Bool-cases, inl, inr}
use download_gateway.Adapters.Job.{AdoptedJob}
use download_gateway.Adapters.Client.{Adapter}
use download_gateway.Adapters.Registry.{
  Registry, Leased, granted, unknown_client, client_draining, lease,
}
use download_gateway.Adapters.Registry.Leases.{granted_clients}
use download_gateway.Server.Add.{Gateway}
use download_gateway.Server.Adopt.{adopt, adopt_leased, can_adopt}

module _ (running : Adapter → Option (List AdoptedJob)) where
  adopted_clients :
      (id : Str) (l : Leased × Registry) (g : Gateway)
      → lease id g.reg ≡ l
      → (adopt_leased running id l g).reg.clients ≡ g.reg.clients
  unfolding adopt_leased
  adopted_clients id (unknown_client, r) g e = refl
  adopted_clients id (client_draining, r) g e = refl
  adopted_clients id (granted c, r) g e = elim (Bool-cases (can_adopt c.adapter)) [
    | inl yes_ ↦ rw (yes_, adopt_leased) (granted_clients id g.reg r c e)
    | inr no_ ↦ rw (no_, adopt_leased) (granted_clients id g.reg r c e)
  ]

  pub adopt-clients : (id : Str) (g : Gateway) → (adopt running id g).reg.clients ≡ g.reg.clients
  unfolding adopt
  adopt-clients id g = adopted_clients id (lease id g.reg) g refl
