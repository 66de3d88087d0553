-- ===== src/Adapters/Nzbget/Jobs/Laws.antt =====
-- What an answer of Describe rests on, and the id that Add returns.
use native.Mathlib.Omega.{arith}
use download_gateway.Prelude.{ℕ, ◌^◌, ◌<◌, true, Str, Option, none, some, ◌≡◌, refl, ap, ◌∙◌}
use download_gateway.Prelude.Int.{ℤ, pos, negsuc}
use download_gateway.Prelude.Strings.{atoi, itoa, itoa_ℤ}
use download_gateway.Prelude.Strings.Numbers.{atoi-itoa}
use download_gateway.Adapters.Job.{Job}
use download_gateway.Adapters.Client.{Nzbget}
use download_gateway.Adapters.Spec.{GoLib}
use download_gateway.Adapters.Failure.{ok}
use download_gateway.Adapters.Http.{lift}
use download_gateway.Adapters.Http.Laws.{>>=-eq-ok}
use download_gateway.Adapters.Nzbget.Calls.{Endpoint}
use download_gateway.Adapters.Nzbget.Jobs.{added_id, append, add}

added_id-eq-ok :
    (res : Str) (o : Option ℤ) (id : Str)
    → added_id res o ≡ ok id
    → (n : ℕ) × (o ≡ some (pos n)) × ((0 < n) × (id ≡ itoa n))
unfolding added_id itoa_ℤ
added_id-eq-ok res none id h = absurd (cc)
added_id-eq-ok res (some (pos n)) id h = (n, refl, ground arith)
added_id-eq-ok res (some (negsuc n)) id h = absurd (ground arith)

module _ {W : Type 0} (lib : GoLib) (rpc : Endpoint W) (n : Nzbget) where
  -- An Add that succeeded got a positive number from append, and the id that it returns is read back
  -- as that number, if it is an int64.
  pub add-atoi :
      (j : Job) (w : W) (id : Str)
      → (add lib rpc n j w).0 ≡ ok id
      → (res : Str) × (k : ℕ) × ((append lib rpc n j w).0 ≡ ok res)
        × (rpc.nzb_id res ≡ some (pos k))
        × (0 < k)
        × (k < 2 ^ 63 → atoi id ≡ (pos k, true))
  unfolding add
  add-atoi j w id h =
      let (res, came, after) =
        >>=-eq-ok (append lib rpc n j) (λ res. lift (added_id res (rpc.nzb_id res))) w id h in
      let (k, number, (positive, printed)) = added_id-eq-ok res (rpc.nzb_id res) id after in
      (res, k, came, number, positive, λ b. ap atoi printed ∙ atoi-itoa k b)
