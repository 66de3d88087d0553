-- ===== src/Adapters/Endpoint.antt =====
-- internal/adapters/endpoint.go: what a pushed client may connect to, and which redirects it follows.
pub mod Laws
use download_gateway.Prelude.{
  ℕ, zero, suc, ◌+◌, ◌*◌, ◌/◌, ◌%◌, ◌^◌, ◌≤◌, Bool, true, false, not, ◌&&◌, ◌||◌, Str, str, ◌==◌,
  Option, none, some, List, [], ◌∷◌, ◌++◌, if◌then◌else◌, is_empty, eqb, leb,
}

-- netip.Addr: an IPv4 address, or an IPv6 address with its zone, which is mostly empty.
pub data Addr : Type 0 where
  v4 : ℕ → Addr
  v6 : ℕ → Str → Addr

-- Unmap: an IPv4-mapped IPv6 address, ::ffff:0:0/96, is the IPv4 address.
unfoldable pub unmap : Addr → Addr
unmap (v4 n) = v4 n
unmap (v6 n zone) = if eqb (n / 2 ^ 32) 0xFFFF then v4 (n % 2 ^ 32) else v6 n zone

-- 169.254.0.0/16. A prefix of one family holds no address of the other.
unfoldable pub link_local4 : Addr → Bool
link_local4 (v4 n) = eqb (n / 2 ^ 16) 0xA9FE
link_local4 (v6 n zone) = false

-- fe80::/10. A prefix has no zone, and Contains answers false for an address that has one.
unfoldable pub link_local6 : Addr → Bool
link_local6 (v4 n) = false
link_local6 (v6 n zone) = is_empty zone && eqb (n / 2 ^ 118) 0x3FA

-- 100.100.100.200
abbrev pub metadata4 : ℕ
metadata4 = 0x64_64_64_C8

-- fd00:ec2::254
abbrev pub metadata6 : ℕ
metadata6 = 0xFD00_0EC2_0000_0000_0000_0000_0000_0254

-- `==` with the entries of metadataAddrs, zones included.
unfoldable pub is_metadata : Addr → Bool
is_metadata (v4 n) = eqb n metadata4
is_metadata (v6 n zone) = is_empty zone && eqb n metadata6

unfoldable pub refused_addr : Addr → Bool
unfolding unmap link_local4 link_local6 is_metadata
refused_addr a = let b = unmap a in link_local4 b || link_local6 b || is_metadata b

-- net.SplitHostPort (the host, nothing for an error), netip.ParseAddr and Addr.String.
pub record NetLib : Type 0 where
  pub split_host_port : Str → Option Str
  pub parse_addr : Str → Option Addr
  pub addr_text : Addr → Str

module _ (net : NetLib) where
  unfoldable pub dial_host : Str → Str
  dial_host address = elim (net.split_host_port address) [ none ↦ address | some host ↦ host ]

  -- refuseDial: the text of the error, or nothing to let the connection be made.
  unfoldable pub refuse_dial : Str → Option Str
  unfolding dial_host refused_addr
  refuse_dial address = elim (net.parse_addr (dial_host address)) [
    | none ↦ none
    | some a ↦
        if refused_addr a
        then some (
            str "refusing to connect to "
            ++ (net.addr_text a ++ str ": link-local or metadata address"))
        else none
  ]

-- The parts of a request's URL that sameOrigin reads.
pub record Origin : Type 0 where
  pub scheme : Str
  pub host : Str

pub data Redirect : Type 0 where
  follow too_many refused_redirect : Redirect

-- `fold` is the case folding that strings.EqualFold compares by; `via` counts the requests made so
-- far, of which `first` is the first.
unfoldable pub same_origin : (Str → Str) → Origin → ℕ → Origin → Redirect
same_origin fold first via req =
    if leb 10 via
    then too_many
    else if not (fold req.scheme == fold first.scheme) || not (fold req.host == fold first.host)
    then refused_redirect
    else follow

-- The requests that net/http makes of a chain of redirects: CheckRedirect is asked before each.
unfoldable pub requested : (Str → Str) → Origin → ℕ → List Origin → List Origin
unfolding same_origin
requested fold first via [] = []
requested fold first via (req ∷ rest) =
    let more = requested fold first (suc via) rest in
    elim (same_origin fold first via req) [
      | follow ↦ req ∷ more
      | too_many ↦ []
      | refused_redirect ↦ []
    ]
