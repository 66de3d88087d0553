-- ===== src/Adapters/Report.antt =====
-- internal/adapters/adapters.go: the client-wide status.
use download_gateway.Prelude.{Bool, false, Str, Option, none, []}
use download_gateway.Prelude.Int.{ℤ, pos}
use download_gateway.Prelude.Assoc.{Assoc}

pub record ClientStatus : Type 0 where
  pub id : Str
  pub type_name : Str
  pub name : Str
  pub reachable : Bool
  pub error : Str
  pub down_bps : ℤ
  pub up_bps : ℤ
  pub paused : Bool
  pub free_disk : Option ℤ
  pub detail : Assoc Str

-- ClientStatus{Name: name}
abbrev pub status_of : Str → ClientStatus
status_of name = record {
  id = [];
  type_name = [];
  name = name;
  reachable = false;
  error = [];
  down_bps = pos 0;
  up_bps = pos 0;
  paused = false;
  free_disk = none;
  detail = [];
}
