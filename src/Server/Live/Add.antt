-- ===== src/Server/Live/Add.antt =====
-- cmd/server/main.go: handleAdd over the Add of the client that it leased.
use download_gateway.Prelude.{Bool, true, false, Str, Option, none, some, List, if◌then◌else◌}
use download_gateway.Prelude.Int.{ℤ}
use download_gateway.Adapters.Job.{Job}
use download_gateway.Adapters.Client.{Adapter}
use download_gateway.Adapters.Spec.{GoLib}
use download_gateway.Adapters.Failure.{
  Failure, status_error, url_error, wrapped, plain, Outcome, ok, fail, public_error,
}
use download_gateway.Adapters.Backends.{Backends}
use download_gateway.Adapters.Backends as Backends
use download_gateway.Server.Event.{Event}
use download_gateway.Server.Reply.{Reply, Decoded}
use download_gateway.Server.Add.{
  AddRequest, AddAnswer, added, payload_unsupported, failed, AddReply, Gateway, handle_add,
}
use download_gateway.Server.Add.Asked.{asked_add}

-- errors.Is(err, ErrPayloadUnsupported)
unfoldable pub is_unsupported : Failure → Bool
is_unsupported (status_error op code detail) = false
is_unsupported (url_error op url inner) = is_unsupported inner
is_unsupported (wrapped text inner) = is_unsupported inner
is_unsupported Failure.payload_unsupported = true
is_unsupported (plain text) = false

-- How handleAdd takes what Add returned.
unfoldable pub added_answer : GoLib → Outcome Str → AddAnswer
unfolding is_unsupported
added_answer lib (ok id) = added id
added_answer lib (fail f) =
    if is_unsupported f then payload_unsupported else failed (public_error lib f)

module _ {W : Type 0} (b : Backends W) where
  after_add : Option (Adapter × Job) → W → W
  after_add none w = w
  after_add (some (ad, job)) w = (Backends.add b ad job w).1

  -- handleAdd, with the requests to the client
  unfoldable pub add_live :
      (F : Type 0)
      → ℤ
      → Decoded AddRequest
      → Gateway
      → W
      → (Reply AddReply × List (Event F) × Gateway) × W
  unfolding added_answer after_add
  add_live F length req g w = (
    handle_add F (λ ad job. added_answer b.lib (Backends.add b ad job w).0) length req g,
    after_add (asked_add length req g) w,
  )
