-- ===== src/Device/Dispatch.antt =====
-- The callbacks that libupnp makes into a device: `sCallBack` finds the device, `callBack` finds the
-- service and the action. The numbers of libupnp, and the size of its buffer for error texts, are
-- arguments. `UpnpAcceptSubscription` acts on the world.
use libupnpp.Prelude.{
  ℕ, zero, suc, ◌-◌, Bool, true, false, List, [], ◌∷◌, ◌++◌, Option, none, some, if◌then◌else◌,
  ◌==◌, length, take, map, Bytes, find,
}
use libupnpp.Prelude.Int.{ℤ, pos, negsuc}
use libupnpp.Soap.{SoapOutgoing, insert_all}
use libupnpp.Text.Escape.{xml_quote}
use libupnpp.Device.{UpnpService, UpnpDevice, SoapFun}

pub record Codes : Type 0 where
  pub success : ℤ
  pub invalid_param : ℤ
  pub line_size : ℕ

pub record ActionRequest : Type 0 where
  pub dev_udn : Bytes
  pub service_id : Bytes
  pub action_name : Bytes
  pub args : List (Bytes × Bytes)
  pub resdata : List (Bytes × Bytes)
  pub err_code : ℤ
  pub err_str : Bytes

pub record SubscriptionRequest : Type 0 where
  pub udn : Bytes
  pub service_id : Bytes
  pub sid : Bytes

pub data Event : Type 0 where
  action_request : ActionRequest → Event
  get_var_request : Event
  subscription_request : SubscriptionRequest → Event
  other_event : Event

abbrev pub same_int : ℤ → ℤ → Bool
same_int (pos a) (pos b) = a == b
same_int (negsuc a) (negsuc b) = a == b
same_int (pos a) (negsuc b) = false
same_int (negsuc a) (pos b) = false

-- `vectorstoargslists`: the names and the quoted values; none if the sizes differ, which its callers
-- do not look at.
unfoldable pub args_lists : List Bytes → List Bytes → List (Bytes × Bytes)
args_lists names values =
    if length names == length values then zip names (map xml_quote values) else []
  where
    zip : List Bytes → List Bytes → List (Bytes × Bytes)
    zip [] ys = []
    zip (x ∷ xs) [] = []
    zip (x ∷ xs) (y ∷ ys) = (x, y) ∷ zip xs ys

-- What a callback returns, the event with what is written into it, and the world.
pub record Answer (W : Type 0) : Type 0 where
  pub ret : ℤ
  pub event : Event
  pub world : W

-- `UpnpAcceptSubscription(dvh, udn, service_id, names, values, sid)`
abbrev pub Accept : Type 0 → Type 0
Accept W = SubscriptionRequest → List (Bytes × Bytes) → W → ℤ × W

module _ {W : Type 0} where
  -- What an action routine returned, written into the request.
  abbrev failed : Codes → UpnpService W → ActionRequest → ℤ → ActionRequest
  failed c serv act (pos zero) = act
  failed c serv act (pos (suc n)) = record act {
    err_code = pos (suc n);
    err_str = take (c.line_size - 1) (serv.err_string (suc n));
  }
  failed c serv act (negsuc n) = act

  abbrev pub finish_action :
      Codes → UpnpService W → ActionRequest → (ℤ × SoapOutgoing) × W → Answer W
  finish_action c serv act ((ret, dt), w) =
      if same_int ret c.success
      then record {
        ret = c.success;
        event = Event.action_request (record act { err_code = c.success; resdata = dt.args });
        world = w;
      }
      else record { ret = ret; event = Event.action_request (failed c serv act ret); world = w }

  abbrev pub run_action : Codes → UpnpService W → ActionRequest → Option (SoapFun W) → W → Answer W
  run_action c serv act none w = record {
    ret = c.invalid_param;
    event = Event.action_request act;
    world = w;
  }
  run_action c serv act (some fun) w = finish_action c serv act (
      fun (record { name = []; args = insert_all act.args [] })
        (record { service_type = serv.service_type; name = act.action_name; args = [] }) w)

  abbrev pub act_on : Codes → ActionRequest → UpnpDevice W → Option (UpnpService W) → W → Answer W
  act_on c act d none w = record {
    ret = c.invalid_param;
    event = Event.action_request act;
    world = w;
  }
  act_on c act d (some serv) w =
      run_action c serv act (find (act.action_name ++ act.service_id) d.calls) w

  abbrev accepted : SubscriptionRequest → ℤ × W → Answer W
  accepted req (ret, w) = record { ret = ret; event = Event.subscription_request req; world = w }

  abbrev accept_data :
      Codes → Accept W → SubscriptionRequest → (Bool × List Bytes × List Bytes) × W → Answer W
  accept_data c accept req ((false, names, values), w) = record {
    ret = c.invalid_param;
    event = Event.subscription_request req;
    world = w;
  }
  accept_data c accept req ((true, names, values), w) =
      accepted req (accept req (args_lists names values) w)

  abbrev pub subscribe_to :
      Codes → Accept W → SubscriptionRequest → Option (UpnpService W) → W → Answer W
  subscribe_to c accept req none w = record {
    ret = c.invalid_param;
    event = Event.subscription_request req;
    world = w;
  }
  subscribe_to c accept req (some serv) w = accept_data c accept req (serv.get_event_data true w)

  -- `callBack`
  unfoldable pub call_back : Codes → Accept W → Event → UpnpDevice W → W → Answer W
  call_back c accept (Event.action_request act) d w =
      act_on c act d (find act.service_id d.servicemap) w
  call_back c accept Event.get_var_request d w = record {
    ret = c.invalid_param;
    event = Event.get_var_request;
    world = w;
  }
  call_back c accept (Event.subscription_request req) d w =
      subscribe_to c accept req (find req.service_id d.servicemap) w
  call_back c accept Event.other_event d w = record {
    ret = c.invalid_param;
    event = Event.other_event;
    world = w;
  }

-- `sCallBack`, on the static map of devices.
abbrev pub device_of : Event → Option Bytes
device_of (Event.action_request act) = some act.dev_udn
device_of Event.get_var_request = none
device_of (Event.subscription_request req) = some req.udn
device_of Event.other_event = none

module _ {W : Type 0} where
  abbrev pub call_device : Codes → Accept W → Event → Option (UpnpDevice W) → W → Answer W
  call_device c accept ev none w = record { ret = c.invalid_param; event = ev; world = w }
  call_device c accept ev (some d) w = call_back c accept ev d w

  abbrev find_device : Option Bytes → List (Bytes × UpnpDevice W) → Option (UpnpDevice W)
  find_device none devices = none
  find_device (some id) devices = find id devices

  unfoldable pub static_call_back :
      Codes → Accept W → Event → List (Bytes × UpnpDevice W) → W → Answer W
  static_call_back c accept ev devices w =
      call_device c accept ev (find_device (device_of ev) devices) w
