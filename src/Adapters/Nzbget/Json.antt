-- ===== src/Adapters/Nzbget/Json.antt =====
-- internal/adapters/nzbget.go: the JSON text of a call, as json.Marshal writes it.
pub mod Laws
use download_gateway.Prelude.{ℕ, Bool, true, false, Str, str, List, [], ◌∷◌, ◌++◌, map}
use download_gateway.Prelude.Int.{ℤ, pos}
use download_gateway.Prelude.Strings.{join, itoa_ℤ}

-- The values that the calls pass.
pub data Param : Type 0 where
  text : Str → Param
  number : ℤ → Param
  flag : Bool → Param
  ids : List ℤ → Param

abbrev flag_text : Bool → Str
flag_text true = str "true"
flag_text false = str "false"

-- `quote` is json.Marshal on a string, its quotation marks included.
module _ (quote : Str → Str) where
  unfoldable pub marshal : Param → Str
  marshal (text s) = quote s
  marshal (number n) = itoa_ℤ n
  marshal (flag b) = flag_text b
  marshal (ids ns) = str "[" ++ (join (map itoa_ℤ ns) (str ",") ++ str "]")

  -- The list without its opening bracket.
  unfoldable pub marshal_tail : List Param → Str
  unfolding marshal
  marshal_tail ps = join (map marshal ps) (str ",") ++ str "]"

  -- The variadic parameters; without any, the slice is nil.
  unfoldable pub marshal_all : List Param → Str
  unfolding marshal_tail
  marshal_all [] = str "null"
  marshal_all (p ∷ ps) = b'[' ∷ marshal_tail (p ∷ ps)

  -- The map of call, its keys in order.
  unfoldable pub marshal_call : Str → List Param → Str
  unfolding marshal_all
  marshal_call method params =
      str "{\"id\":1,\"method\":"
      ++ (quote method ++ (str ",\"params\":" ++ (marshal_all params ++ str "}")))
