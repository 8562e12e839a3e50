-- ===== src/Playlist/Tests.antt =====
-- The theorem on the list of ids at a device with two ids.
use libupnpp.Prelude.{ℕ, ◌+◌, true, false, List, [], ◌∷◌, none, codes}
use libupnpp.Prelude.Int.{ℤ, pos, negsuc}
use libupnpp.Base64.{encode_groups}
use libupnpp.Soap.{SoapOutgoing}
use libupnpp.Device.{UpnpService, UpnpDevice, SoapFun}
use libupnpp.Device.Dispatch.{Codes, Event, Accept, call_back}
use libupnpp.Control.{Service, Lib, Client}
use libupnpp.Control.Actions.{carried, request}
use libupnpp.Playlist.IdArray.{bytes_of}

abbrev two_ids : List ℤ
two_ids = pos 10 ∷ negsuc 2 ∷ []

abbrev upnp_codes : Codes
upnp_codes = record { success = pos 0; invalid_param = negsuc 100; line_size = 180 }

abbrev accepting : Accept ℕ
accepting req vars w = (pos 0, w)

abbrev playlist : UpnpService ℕ
playlist = record {
  service_type = codes "urn:x:service:Playlist:1";
  service_id = codes "pl";
  xml_fn = [];
  noevents = false;
  get_event_data = λ all w. ((true, [], []), w);
  err_string = λ e. [];
}

abbrev ids_answer : SoapOutgoing
ids_answer = record {
  service_type = codes "urn:x:service:Playlist:1";
  name = codes "IdArray";
  args = (codes "Token", codes "1") ∷ (codes "Array", encode_groups (bytes_of two_ids)) ∷ [];
}

abbrev give_ids : SoapFun ℕ
give_ids sc dt w = ((pos 0, ids_answer), w + 1)

abbrev player : UpnpDevice ℕ
player = record {
  device_id = codes "p";
  devsubd = codes "/p/";
  myxml = record { propsxml = []; servicexml = [] };
  embedxml = [];
  servicemap = (codes "pl", playlist) ∷ [];
  serviceids = codes "pl" ∷ [];
  calls = (codes "IdArraypl", give_ids) ∷ [];
  need_exit = false;
  product = [];
  version = [];
}

-- A libupnp that has one device.
abbrev wire : Client ℕ
wire = record {
  subscribe = λ url t sid w. ((pos 0, codes "uuid:2"), w);
  un_subscribe = λ sid w. (pos 0, w);
  send_action = λ url st act args response w. carried upnp_codes response (
      call_back upnp_codes accepting
        (Event.action_request (request (codes "p") (codes "pl") act args)) player w);
}

abbrev wired : Lib ℕ
wired = record {
  present = true;
  subs_timeout = pos 1800;
  codes = record {
    success = pos 0;
    outof_memory = negsuc 103;
    bad_response = negsuc 112;
    invalid_action = negsuc 115;
    invalid_args = pos 402;
  };
  client = wire;
}

abbrev playlist_client : Service
playlist_client = record {
  reporter = none;
  action_url = codes "/a";
  event_url = codes "/e";
  service_type = codes "urn:x:service:Playlist:1";
  device_id = codes "p";
  friendly_name = [];
  manufacturer = [];
  model_name = [];
  sid = [];
}
