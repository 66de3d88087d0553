-- ===== src/Server/Add/Release.antt =====
-- The room that an add reserves for its body is given back when it ends.
use download_gateway.Prelude.{ℕ, Str, Option, none, some, ◌≡◌, refl, arith}
use download_gateway.Prelude.Int.{ℤ, pos, negsuc}
use download_gateway.Adapters.Job.{Job}
use download_gateway.Adapters.Client.{Adapter}
use download_gateway.Adapters.Registry.{
  Registry, Leased, granted, unknown_client, client_draining, lease,
}
use download_gateway.Server.Budget.{admit_add, release_add, max_add_body}
use download_gateway.Server.Reply.{Decoded, Body, decode_json}
use download_gateway.Server.Add.{
  AddRequest, AddAnswer, AddReply, Gateway, after_lease, add_body, admitted, handle_add,
}
use download_gateway.Server.Add.Cases.{body_cases}

released :
    (n : ℤ) (in_flight after amount : ℕ)
    → admit_add n in_flight ≡ some (after, amount)
    → release_add amount after ≡ in_flight
unfolding admit_add release_add
released (pos n) in_flight after amount h = ground arith
released (negsuc n) in_flight after amount h = ground arith

module _ (F : Type 0) (add : Adapter → Job → AddAnswer) where
  leased_body :
      (id : Str) (req : AddRequest) (l : Leased × Registry) (g : Gateway)
      → (after_lease F add id req l g).2.body_in_flight ≡ g.body_in_flight
  unfolding after_lease
  leased_body id req (unknown_client, r) g = refl
  leased_body id req (client_draining, r) g = refl
  leased_body id req (granted c, r) g = refl

  decoded_body :
      (b : Body AddRequest AddReply) (g : Gateway)
      → (add_body F add b g).2.body_in_flight ≡ g.body_in_flight
  decoded_body b g =
      body_cases F add (λ h. h.body_in_flight ≡ g.body_in_flight) g refl
        (λ id req. leased_body id req (lease id g.reg) g) b

  admitted_body :
      (n : ℤ) (o : Option (ℕ × ℕ)) (req : Decoded AddRequest) (g : Gateway)
      → admit_add n g.body_in_flight ≡ o
      → (admitted F add o req g).2.body_in_flight ≡ g.body_in_flight
  unfolding admitted
  admitted_body n none req g e = refl
  admitted_body n (some (after, amount)) req g e =
      rw (decoded_body (decode_json max_add_body req) (record g { body_in_flight = after }))
        (released n g.body_in_flight after amount e)

  -- An add, of whatever declared length and however it ends, leaves the bytes in flight as they
  -- were before it.
  pub handle_add-released :
      (n : ℤ) (req : Decoded AddRequest) (g : Gateway)
      → (handle_add F add n req g).2.body_in_flight ≡ g.body_in_flight
  unfolding handle_add
  handle_add-released n req g = admitted_body n (admit_add n g.body_in_flight) req g refl
