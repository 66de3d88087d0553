-- ===== src/Server/Budget.antt =====
-- cmd/server/main.go: the budget that large adds in flight share.
pub mod Laws
use download_gateway.Prelude.{
  ℕ, ◌+◌, ◌-◌, ◌*◌, ◌/◌, ◌^◌, ◌≤◌, ◌<◌, Bool, true, false, ◌&&◌, ◌||◌, Option, none, some,
  if◌then◌else◌, ltb, leb, ◌≡◌, ◌≢◌, refl, arith, List, [], ◌∷◌,
}
use download_gateway.Prelude.Int.{ℤ, pos, pos_part, ltb_ℤ, leb_ℤ}

abbrev pub max_payload : ℕ
max_payload = 50 * 2 ^ 20

abbrev pub max_add_body : ℕ
max_add_body = (max_payload + 2) / 3 * 4 + 4 * 2 ^ 20

abbrev pub add_body_budget : ℕ
add_body_budget = 2 * max_add_body

abbrev pub small_add_body : ℕ
small_add_body = 2 ^ 20

-- The bytes that an add of n declared bytes reserves.
unfoldable pub reserved : ℤ → ℕ
reserved n = if ltb_ℤ n (pos 0) || ltb_ℤ (pos max_add_body) n then max_add_body else pos_part n

-- What is in flight once the add is admitted, and what its release gives back; `none`: refused.
unfoldable pub admit_add : ℤ → ℕ → Option (ℕ × ℕ)
unfolding reserved
admit_add n in_flight =
    if leb_ℤ (pos 0) n && leb_ℤ n (pos small_add_body)
    then some (in_flight, 0)
    else if ltb add_body_budget (in_flight + reserved n)
    then none
    else some (in_flight + reserved n, reserved n)

-- The release function, which sync.Once lets through once.
unfoldable pub release_add : ℕ → ℕ → ℕ
release_add amount in_flight = in_flight - amount
