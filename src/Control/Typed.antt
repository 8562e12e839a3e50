-- ===== src/Control/Typed.antt =====
-- libupnpp/control/typedservice.cxx: a service known by its type alone, whose actions come from its
-- description.
pub mod Versions
pub mod Arguments
use libupnpp.Prelude.{
  ℕ, suc, ◌+◌, ◌==◌, Bool, true, false, List, [], ◌∷◌, ◌++◌, ◌&&◌, Option, none, some,
  if◌then◌else◌, leb, length, Bytes, beq, find,
}
use libupnpp.Prelude.Int.{ℤ, pos, negsuc}
use libupnpp.Text.Decimal.{atoi}
use libupnpp.Soap.{SoapIncoming, SoapOutgoing, insert_all, add_arg}
use libupnpp.Device.Dispatch.{same_int}
use libupnpp.Control.{Service, Lib, no_data, plain_call, run_action}

-- `find_last_of(':')`: the text before and after it.
abbrev pub colon_here : ℕ → Bytes → Option (Bytes × Bytes) → Option (Bytes × Bytes)
colon_here c s (some (a, b)) = some (c ∷ a, b)
colon_here c s none = if c == 58 then some ([], s) else none

abbrev pub last_colon : Bytes → Option (Bytes × Bytes)
last_colon [] = none
last_colon (c ∷ s) = colon_here c s (last_colon s)

-- `UPnPServiceDesc::Argument`
pub record Argument : Type 0 where
  pub name : Bytes
  pub todevice : Bool

-- `TypedService::Internal`; the actions are those of the parsed description.
pub record TypedService : Type 0 where
  pub service_type : Bytes
  pub version : ℤ
  pub actions : List (Bytes × List Argument)

abbrev pub version_of : Bytes → ℤ
version_of [] = pos 0
version_of (c ∷ s) = atoi (c ∷ s)

-- The type and the version that a text is cut into.
abbrev pub cut_type : Bytes → Option (Bytes × Bytes) → Bytes × ℤ
cut_type tp none = (tp, pos 0)
cut_type tp (some (a, b)) = (a, version_of b)

unfoldable pub new_typed_service : Bytes → TypedService
new_typed_service tp =
    let c = cut_type tp (last_colon tp) in
    record { service_type = c.0; version = c.1; actions = [] }

abbrev pub leb_int : ℤ → ℤ → Bool
leb_int (pos a) (pos b) = leb a b
leb_int (pos a) (negsuc b) = false
leb_int (negsuc a) (pos b) = true
leb_int (negsuc a) (negsuc b) = leb b a

unfoldable pub service_type_match : TypedService → Bytes → Bool
service_type_match t tp =
    let c = cut_type tp (last_colon tp) in beq t.service_type c.0 && leb_int c.1 t.version

abbrev pub count_out : List Argument → ℕ
count_out [] = 0
count_out (a ∷ as') = (if a.todevice then 1 else 0) + count_out as'

-- The i-th value goes under the name of the i-th argument; `none` is an index out of the list.
abbrev pub add_args : List Argument → List Bytes → SoapOutgoing → Option SoapOutgoing
add_args arg_list [] out = some out
add_args [] (v ∷ vs) out = none
add_args (a ∷ arg_list) (v ∷ vs) out = add_args arg_list vs (add_arg a.name v out)

module _ {W : Type 0} where
  -- The result, and the caller's map of data, which is replaced after a success.
  abbrev pub take_data :
      List (Bytes × Bytes)
      → Option ((ℤ × SoapIncoming) × W)
      → Option ((ℤ × List (Bytes × Bytes)) × W)
  take_data old none = none
  take_data old (some ((ret, dat), w)) =
      if same_int ret (pos 0) then some ((ret, dat.args), w) else some ((ret, old), w)

  abbrev pub send_args :
      Lib W
      → Service
      → List (Bytes × Bytes)
      → Option SoapOutgoing
      → W
      → Option ((ℤ × List (Bytes × Bytes)) × W)
  unfolding run_action
  send_args lib s old none w = none
  send_args lib s old (some out) w = take_data old (run_action lib s out no_data none w)

  abbrev pub act_with :
      Lib W
      → Service
      → Bytes
      → List Bytes
      → List (Bytes × Bytes)
      → Option (List Argument)
      → W
      → Option ((ℤ × List (Bytes × Bytes)) × W)
  unfolding send_args
  act_with lib s act args old none w = some ((lib.codes.invalid_action, old), w)
  act_with lib s act args old (some arg_list) w =
      if count_out arg_list == length args
      then send_args lib s old (add_args arg_list args (plain_call s act)) w
      else some ((lib.codes.invalid_args, old), w)

  -- `TypedService::runAction`
  unfoldable pub typed_run_action :
      Lib W
      → TypedService
      → Service
      → Bytes
      → List Bytes
      → List (Bytes × Bytes)
      → W
      → Option ((ℤ × List (Bytes × Bytes)) × W)
  unfolding act_with
  typed_run_action lib t s act args old w = act_with lib s act args old (find act t.actions) w
