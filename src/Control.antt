-- ===== src/Control.antt =====
-- libupnpp/control/service.cxx: the control point's side of a service. It sends actions, subscribes to
-- events, and keeps the callbacks of all services in one static map, by subscription id. libupnp, the
-- callbacks and the program around them act on a world `W`.
pub mod Subscribing
pub mod Actions
pub mod Events
pub mod Lifetime
pub mod Typed
mod Tests
use libupnpp.Prelude.{
  ℕ, ◌==◌, Bool, true, false, List, [], ◌∷◌, ◌++◌, Option, none, some, if◌then◌else◌, Bytes, codes,
  find, assign, erase,
}
use libupnpp.Prelude.Int.{ℤ, pos}
use libupnpp.Text.Decimal.{lltodecstr}
use libupnpp.Soap.{SoapIncoming, SoapOutgoing, insert_all, add_arg}
use libupnpp.Device.Dispatch.{same_int}

-- `evtCBFunc`
abbrev pub EvtCbFunc : Type 0 → Type 0
EvtCbFunc W = List (Bytes × Bytes) → W → W

-- The results that the code gives itself.
pub record ClientCodes : Type 0 where
  pub success : ℤ
  pub outof_memory : ℤ
  pub bad_response : ℤ
  pub invalid_action : ℤ
  pub invalid_args : ℤ

-- `UpnpSubscribe(url, timeout, SID)`, which may change the SID, `UpnpUnSubscribe`, and
-- `UpnpSendAction`, which adds to the response.
pub record Client (W : Type 0) : Type 0 where
  pub subscribe : Bytes → ℤ → Bytes → W → (ℤ × Bytes) × W
  pub un_subscribe : Bytes → W → ℤ × W
  pub send_action :
      Bytes
      → Bytes
      → Bytes
      → List (Bytes × Bytes)
      → List (Bytes × Bytes)
      → W
      → (ℤ × List (Bytes × Bytes)) × W

-- `getLibUPnP`, its subscription timeout, and the codes.
pub record Lib (W : Type 0) : Type 0 where
  pub present : Bool
  pub subs_timeout : ℤ
  pub codes : ClientCodes
  pub client : Client W

-- `Service::Internal`. The reporter is the number of the client's object.
pub record Service : Type 0 where
  pub reporter : Option ℕ
  pub action_url : Bytes
  pub event_url : Bytes
  pub service_type : Bytes
  pub device_id : Bytes
  pub friendly_name : Bytes
  pub manufacturer : Bytes
  pub model_name : Bytes
  pub sid : Bytes

-- What an operation works on: the object, the static map `o_calls`, and the world.
pub record Conn (W : Type 0) : Type 0 where
  pub serv : Service
  pub calls : List (Bytes × EvtCbFunc W)
  pub world : W

abbrev pub is_empty : Bytes → Bool
is_empty [] = true
is_empty (c ∷ s) = false

-- `Service::ok`
unfoldable pub is_ok : Service → Bool
is_ok s = if is_empty s.sid then false else true

-- The response that the call starts with holds the timeout, if the options have one.
abbrev pub timeout_entry : Option ℤ → Option (List (Bytes × Bytes))
timeout_entry none = some []
timeout_entry (some ms) = elim (lltodecstr ms) [
  | none ↦ none
  | some t ↦ some ((codes "timeoutms", t) ∷ [])
]

module _ {W : Type 0} where
  abbrev pub answered_action :
      Lib W → SoapOutgoing → SoapIncoming → (ℤ × List (Bytes × Bytes)) × W → (ℤ × SoapIncoming) × W
  answered_action lib args dat ((ret, response), w) =
      if same_int ret lib.codes.success
      then (
        (lib.codes.success, record { name = args.name; args = insert_all response dat.args }),
        w,
      )
      else ((ret, dat), w)

  abbrev pub send_from :
      Lib W
      → Service
      → SoapOutgoing
      → SoapIncoming
      → Option (List (Bytes × Bytes))
      → W
      → Option ((ℤ × SoapIncoming) × W)
  send_from lib s args dat none w = none
  send_from lib s args dat (some response) w = some (
      answered_action lib args dat
        (lib.client.send_action s.action_url s.service_type args.name args.args response w))

  -- `runAction`: the result and the data. `none` is a timeout that is not printed.
  unfoldable pub run_action :
      Lib W → Service → SoapOutgoing → SoapIncoming → Option ℤ → W → Option ((ℤ × SoapIncoming) × W)
  run_action lib s args dat timeoutms w =
      if lib.present
      then send_from lib s args dat (timeout_entry timeoutms) w
      else some ((lib.codes.outof_memory, dat), w)

abbrev pub no_data : SoapIncoming
no_data = record { name = []; args = [] }

abbrev pub plain_call : Service → Bytes → SoapOutgoing
plain_call s act = record { service_type = s.service_type; name = act; args = [] }

module _ {W : Type 0} where
  unfoldable pub run_trivial_action :
      Lib W → Service → Bytes → Option ℤ → W → Option ((ℤ × SoapIncoming) × W)
  unfolding run_action
  run_trivial_action lib s act timeoutms w = run_action lib s (plain_call s act) no_data timeoutms w

  -- `runSimpleAction`, with the text that `val2s` made of the value.
  unfoldable pub run_simple_action :
      Lib W → Service → Bytes → Bytes → Bytes → Option ℤ → W → Option ((ℤ × SoapIncoming) × W)
  unfolding run_action
  run_simple_action lib s act valnm text timeoutms w =
      run_action lib s (add_arg valnm text (plain_call s act)) no_data timeoutms w

module _ {T W : Type 0} where
  abbrev pub value_or : Lib W → Option T → ℤ × Option T
  value_or lib none = (lib.codes.bad_response, none)
  value_or lib (some v) = (pos 0, some v)

  abbrev pub got :
      Lib W
      → (SoapIncoming → Option T)
      → Option ((ℤ × SoapIncoming) × W)
      → Option ((ℤ × Option T) × W)
  got lib get none = none
  got lib get (some ((ret, dat), w)) =
      if same_int ret lib.codes.success
      then some (value_or lib (get dat), w)
      else some ((ret, none), w)

  -- `runSimpleGet`, with the `get` of the value's type: the result and the value.
  unfoldable pub run_simple_get :
      Lib W
      → Service
      → Bytes
      → (SoapIncoming → Option T)
      → Option ℤ
      → W
      → Option ((ℤ × Option T) × W)
  unfolding run_action
  run_simple_get lib s act get timeoutms w =
      got lib get (run_action lib s (plain_call s act) no_data timeoutms w)
