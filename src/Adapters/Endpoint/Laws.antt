-- ===== src/Adapters/Endpoint/Laws.antt =====
-- Which addresses are refused, and where redirects may lead.
use download_gateway.Prelude.{
  ℕ, suc, ◌+◌, ◌-◌, ◌*◌, ◌^◌, ◌≤◌, ◌<◌, Bool, true, false, Str, ==_iff, List, [], ◌∷◌, ◌≡◌, ◌⊎◌,
  ◌↔◌, refl, arith, All, length, inl, inr,
}
use download_gateway.Adapters.Endpoint.{
  Addr, v4, v6, metadata4, metadata6, refused_addr, Origin, Redirect, follow, too_many,
  refused_redirect, same_origin, requested,
}

-- In 169.254.0.0 to 169.254.255.255, or 100.100.100.200.
abbrev pub IsForbidden4 : ℕ → Type 0
IsForbidden4 n = ((0xA9FE_0000 ≤ n) × (n ≤ 0xA9FE_FFFF)) ⊎ (n ≡ metadata4)

-- In fe80:: to febf:ffff:…:ffff, or fd00:ec2::254.
abbrev pub IsForbidden6 : ℕ → Type 0
IsForbidden6 n = ((0xFE80 * 2 ^ 112 ≤ n) × (n < 0xFEC0 * 2 ^ 112)) ⊎ (n ≡ metadata6)

-- In ::ffff:0:0 to ::ffff:ffff:ffff.
abbrev pub IsMapped : ℕ → Type 0
IsMapped n = (0xFFFF * 2 ^ 32 ≤ n) × (n < 0x1_0000 * 2 ^ 32)

abbrev pub IsForbidden : Addr → Type 0
IsForbidden (v4 n) = IsForbidden4 n
IsForbidden (v6 n zone) =
    (IsMapped n × IsForbidden4 (n - 0xFFFF * 2 ^ 32)) ⊎ ((zone ≡ []) × IsForbidden6 n)

-- An address is refused exactly when it is a link-local or metadata IPv4 address, such an address
-- mapped to IPv6, or a link-local or metadata IPv6 address without a zone; one with a zone, such as
-- fe80::1%eth0, is let through.
pub refused_addr_iff : (a : Addr) → (refused_addr a ≡ true) ↔ IsForbidden a
unfolding refused_addr
refused_addr_iff (v4 n) = ground arith
refused_addr_iff (v6 n []) = ground arith
refused_addr_iff (v6 n (c ∷ zone)) = ground arith

-- Same scheme and same host, up to case.
abbrev pub IsSameOrigin : (Str → Str) → Origin → Origin → Type 0
IsSameOrigin fold first req =
    (fold req.scheme ≡ fold first.scheme) × (fold req.host ≡ fold first.host)

followed :
    (fold : Str → Str) (first req : Origin) (via : ℕ)
    → same_origin fold first via req ≡ follow
    → (via < 10) × IsSameOrigin fold first req
unfolding same_origin
followed fold first req via h =
    ground (
      arith,
      ==_iff (fold req.scheme) (fold first.scheme),
      ==_iff (fold req.host) (fold first.host),
    )

-- A chain ends unless the redirect is followed.
stops : Redirect → Bool
stops follow = false
stops too_many = true
stops refused_redirect = true

Redirect-cases : (r : Redirect) → (stops r ≡ true) ⊎ (r ≡ follow)
unfolding stops
Redirect-cases follow = inr refl
Redirect-cases too_many = inl refl
Redirect-cases refused_redirect = inl refl

requested-stop :
    (fold : Str → Str) (first req : Origin) (via : ℕ) (rest : List Origin)
    → stops (same_origin fold first via req) ≡ true
    → requested fold first via (req ∷ rest) ≡ []
unfolding stops requested
requested-stop fold first req via rest h = ground arith

requested-follow :
    (fold : Str → Str) (first req : Origin) (via : ℕ) (rest : List Origin)
    → same_origin fold first via req ≡ follow
    → requested fold first via (req ∷ rest) ≡ req ∷ requested fold first (suc via) rest
unfolding requested
requested-follow fold first req via rest h = rw (h, requested) refl

-- However an endpoint redirects, every request of the chain goes to the scheme and the host of the
-- first, up to case, and counting those made before it has at most ten requests.
pub requested-IsSameOrigin :
    (fold : Str → Str) (first : Origin) (via : ℕ) (targets : List Origin)
    → via ≤ 10
    → All (IsSameOrigin fold first) (requested fold first via targets)
      × (via + length (requested fold first via targets) ≤ 10)
requested-IsSameOrigin fold first via [] h = unfold requested in (tt, omega arith)
requested-IsSameOrigin fold first via (req ∷ rest) h =
    elim (Redirect-cases (same_origin fold first via req)) [
      | inl stopped ↦ rw (requested-stop fold first req via rest stopped) (tt, omega arith)
      | inr goes ↦
          let (room, same) = followed fold first req via goes in
          let (all_same, few) = requested-IsSameOrigin fold first (suc via) rest (omega arith) in
          rw (requested-follow fold first req via rest goes) ((same, all_same), omega (arith, few))
    ]
