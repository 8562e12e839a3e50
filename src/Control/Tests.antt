-- ===== src/Control/Tests.antt =====
-- The theorems on the control point's side at one service, one subscription and one action.
use libupnpp.Prelude.{
  ℕ, ◌+◌, ◌==◌, true, false, List, [], ◌∷◌, ◌++◌, ◌≡◌, refl, none, some, inl, if◌then◌else◌, length,
  codes, beq, find,
}
use libupnpp.Prelude.Int.{pos, negsuc}
use libupnpp.Soap.{SoapOutgoing}
use libupnpp.Device.{UpnpService, UpnpDevice, SoapFun}
use libupnpp.Device.Dispatch.{Codes, Event, Accept, call_back}
use libupnpp.Control.{Service, Conn, Lib, ClientCodes, Client, EvtCbFunc, run_action, no_data}
use libupnpp.Control.Subscribing.{
  SubEvent, deliver, srv_cb, subscribe, register_callback, unregister_callback, re_subscribe,
}
use libupnpp.Control.Actions.{carried, request}
use libupnpp.Control.Events.{srv_cb-re_subscribe}
use libupnpp.Control.Lifetime.{FreshIds, Step, Steps, Steps-unregister_callback}
use libupnpp.Control.Typed.{Argument, TypedService, take_data, typed_run_action}
use libupnpp.Control.Typed.Arguments.{named, typed_run_action-named}

abbrev upnp_codes : Codes
upnp_codes = record { success = pos 0; invalid_param = negsuc 100; line_size = 180 }

abbrev client_codes : ClientCodes
client_codes = record {
  success = pos 0;
  outof_memory = negsuc 103;
  bad_response = negsuc 112;
  invalid_action = negsuc 115;
  invalid_args = pos 402;
}

abbrev accepting : Accept ℕ
accepting req vars w = (pos 0, w)

abbrev volume : UpnpService ℕ
volume = record {
  service_type = codes "urn:x:service:Volume:1";
  service_id = codes "vol";
  xml_fn = codes "Volume.xml";
  noevents = false;
  get_event_data = λ all w. ((true, [], []), w);
  err_string = λ e. codes "Failed";
}

abbrev get_volume : SoapFun ℕ
get_volume sc dt w = ((pos 0, record dt { args = (codes "CurrentVolume", codes "17") ∷ [] }), w + 1)

abbrev player : UpnpDevice ℕ
player = record {
  device_id = codes "p";
  devsubd = codes "/p/";
  myxml = record { propsxml = []; servicexml = [] };
  embedxml = [];
  servicemap = (codes "vol", volume) ∷ [];
  serviceids = codes "vol" ∷ [];
  calls = (codes "GetVolumevol", get_volume) ∷ [];
  need_exit = false;
  product = [];
  version = [];
}

-- A libupnp that has one device.
abbrev wire : Client ℕ
wire = record {
  subscribe = λ url t sid w. ((pos 0, codes "uuid:2"), w);
  un_subscribe = λ sid w. (negsuc 0, w);
  send_action = λ url st act args response w. carried upnp_codes response (
      call_back upnp_codes accepting
        (Event.action_request (request (codes "p") (codes "vol") act args)) player w);
}

abbrev wired : Lib ℕ
wired = record { present = true; subs_timeout = pos 1800; codes = client_codes; client = wire }

abbrev volume_client : Service
volume_client = record {
  reporter = none;
  action_url = codes "/a";
  event_url = codes "/e";
  service_type = codes "urn:x:service:Volume:1";
  device_id = codes "p";
  friendly_name = codes "Player";
  manufacturer = [];
  model_name = [];
  sid = [];
}

abbrev volume_answer : SoapOutgoing
volume_answer = record {
  service_type = codes "urn:x:service:Volume:1";
  name = codes "GetVolume";
  args = (codes "CurrentVolume", codes "17") ∷ [];
}

-- A callback that counts events.
abbrev counting : EvtCbFunc ℕ
counting vars w = w + 1

abbrev idle : Conn ℕ
idle = record { serv = volume_client; calls = []; world = 0 }

abbrev subscribed_one : Conn ℕ
subscribed_one = record idle {
  serv = record volume_client { sid = codes "uuid:1" };
  calls = (codes "uuid:1", counting) ∷ [];
}

busy_subscribes : (subscribe wired (unregister_callback wired subscribed_one)).0 ≡ true
unfolding subscribe
busy_subscribes = refl

busy_found : find (codes "uuid:1") subscribed_one.calls ≡ some counting
unfolding find
busy_found = refl

srv_cb-re_subscribe_example :
    ((re_subscribe wired subscribed_one).0 ≡ true)
    × (srv_cb
          (SubEvent.event_received [])
          (codes "uuid:2")
          (re_subscribe wired subscribed_one).1.calls
          5
        ≡ (if beq (re_subscribe wired subscribed_one).1.serv.sid (codes "uuid:2")
            then deliver (SubEvent.event_received []) (some counting) 5
            else if beq (codes "uuid:1") (codes "uuid:2")
            then 5
            else srv_cb (SubEvent.event_received []) (codes "uuid:2") subscribed_one.calls 5))
srv_cb-re_subscribe_example =
    srv_cb-re_subscribe wired counting subscribed_one (SubEvent.event_received []) (codes "uuid:2")
      5 refl busy_found busy_subscribes

wired_fresh : FreshIds wired []
unfolding find
wired_fresh url sid t w = inl (refl, refl, refl)

Steps-unregister_callback_example :
    find
      (codes "uuid:2")
      (unregister_callback wired
        (re_subscribe wired (register_callback wired counting idle).1).1).calls
    ≡ find (codes "uuid:2") []
Steps-unregister_callback_example =
    Steps-unregister_callback wired [] idle
      (re_subscribe wired (register_callback wired counting idle).1).1 (codes "uuid:2") wired_fresh
      refl refl
      (Steps.also _ _ _ (Step.registers counting idle refl) (
        Steps.also _ _ _ (Step.resubscribes (register_callback wired counting idle).1)
          (Steps.done _)))

abbrev seek_in : List Argument
seek_in = record { name = codes "InstanceID"; todevice = true } ∷ []

abbrev seek_out : List Argument
seek_out = record { name = codes "Track"; todevice = false } ∷ []

abbrev typed : TypedService
typed = record {
  service_type = codes "urn:x:service:Volume";
  version = pos 1;
  actions = (codes "Where", seek_in ++ seek_out) ∷ [];
}

where_found : find (codes "Where") typed.actions ≡ some (seek_in ++ seek_out)
unfolding find
where_found = refl

typed_run_action-named_example :
    typed_run_action wired typed volume_client (codes "Where") (codes "0" ∷ []) [] 3 ≡ (
      if length seek_in == length (codes "0" ∷ [])
      then take_data [] (
          run_action wired volume_client
            (record {
              service_type = volume_client.service_type;
              name = codes "Where";
              args = named seek_in (codes "0" ∷ []);
            })
            no_data
            none
            3)
      else some ((client_codes.invalid_args, []), 3))
typed_run_action-named_example =
    typed_run_action-named wired typed volume_client (codes "Where") (codes "0" ∷ []) [] seek_in
      seek_out 3 where_found (refl, tt) (refl, tt)
