-- ===== src/Server/Event.antt =====
-- internal/events/events.go: the payloads of the four lifecycle events, before the publisher stamps
-- them; and float64, which only the percentage and the derived rate use.
use download_gateway.Prelude.{Bool, Str, Option, List}
use download_gateway.Prelude.Int.{ℤ}

-- float64, by the operations that the gateway uses.
pub record Float64 : Type 1 where
  pub F : Type 0
  pub of_int : ℤ → F
  pub add : F → F → F
  pub mul : F → F → F
  pub div : F → F → F
  pub leb : F → F → Bool
  pub trunc : F → ℤ

pub record Started : Type 0 where
  pub client_id : Str
  pub adapter : Str
  pub client_type : Str
  pub wanted_item_id : Str
  pub title : Str

pub record Progress (F : Type 0) : Type 0 where
  pub client_id : Str
  pub adapter : Str
  pub client_type : Str
  pub wanted_item_id : Str
  pub title : Str
  pub state : Str
  pub native_state : Str
  pub progress_pct : F
  pub downloaded_bytes : ℤ
  pub size_bytes : Option ℤ
  pub speed_bps : ℤ
  pub eta_sec : Option ℤ
  pub seeders : Option ℤ
  pub leechers : Option ℤ
  pub health : Option ℤ

pub record Completed : Type 0 where
  pub client_id : Str
  pub adapter : Str
  pub client_type : Str
  pub wanted_item_id : Str
  pub files : List Str
  pub size_bytes : ℤ

pub record Failed : Type 0 where
  pub client_id : Str
  pub adapter : Str
  pub client_type : Str
  pub wanted_item_id : Str
  pub title : Str
  pub error : Str

pub data Event (F : Type 0) : Type 0 where
  started : Started → Event F
  progress : Progress F → Event F
  completed : Completed → Event F
  failed : Failed → Event F
