-- ===== src/Device/Tests.antt =====
-- The theorems on devices at a device with one service.
use libupnpp.Prelude.{
  ℕ, ◌+◌, ◌≤◌, true, false, List, [], ◌∷◌, ◌++◌, ◌≡◌, refl, ap, arith, Option, none, some,
  Bool-cases, inl, inr, Bytes, codes, find, assign, beq, from, until,
}
use libupnpp.Prelude.Int.{pos, negsuc}
use libupnpp.Text.Trim.{neutchars}
use libupnpp.VirtualDir.{Dirs, vdgetinfo, FileInfo}
use libupnpp.Device.{
  UpnpService, UpnpDevice, SoapFun, Added, list_service, add_service, forget_service,
  add_action_mapping, device_subdir, replchars, erase_id, with_props,
}
use libupnpp.Device.Dispatch.{Codes, ActionRequest, Event, Accept, call_back}
use libupnpp.Device.Loop.{early, normal, LoopState, Notify, poll}
use libupnpp.Device.Services.{
  IsListed, Leaves, known, sent_for, add_service-forget_service-IsListed, poll-IsListed,
}
use libupnpp.Device.Actions.{ask, refused, call_back-add_action_mapping, call_back-forget_service}
use libupnpp.Device.Events.{polls}
use libupnpp.Device.Start.{Server, Started, description, start}
use libupnpp.Device.Description.{found, start-vdgetinfo}
use libupnpp.Device.Ordered.{ordered, except, poll_list, list_service-forget_service-poll}

-- A service that tells its reads, which are the world.
abbrev counter : UpnpService ℕ
counter = record {
  service_type = codes "urn:x:service:Counter:1";
  service_id = codes "counter";
  xml_fn = codes "Counter.xml";
  noevents = false;
  get_event_data = λ all w. ((true, codes "Reads" ∷ [], codes "1" ∷ []), w + 1);
  err_string = λ e. codes "Failed";
}

abbrev bare : UpnpDevice ℕ
bare = record {
  device_id = codes "u:1";
  devsubd = codes "/u-1/";
  myxml = record { propsxml = codes "<x/>"; servicexml = [] };
  embedxml = [];
  servicemap = [];
  serviceids = [];
  calls = [];
  need_exit = false;
  product = [];
  version = [];
}

abbrev counting : UpnpDevice ℕ
counting = record bare {
  servicemap = (codes "counter", counter) ∷ [];
  serviceids = codes "counter" ∷ [];
}

counting_run : list_service counter bare ≡ counting
unfolding list_service assign erase_id
counting_run = refl

bare-IsListed : IsListed bare
unfolding find
bare-IsListed k = refl

counting-IsListed : IsListed counting
unfolding find
counting-IsListed k = elim (Bool-cases (beq (codes "counter") k)) [
  | inl e ↦ rw e refl
  | inr e ↦ rw e refl
]

abbrev no_dirs : Dirs ℕ ℕ
no_dirs = record { available = true; dirs = []; registered = [] }

abbrev no_file : Bytes → Option Bytes
no_file name = none

add_service-forget_service-IsListed_example :
    Leaves {H = ℕ} {V = ℕ} IsListed (add_service no_file 0 counter bare none no_dirs)
    × IsListed (forget_service (codes "counter") bare)
add_service-forget_service-IsListed_example =
    add_service-forget_service-IsListed no_file 0 counter (codes "counter") bare none no_dirs
      bare-IsListed

poll-IsListed_example :
    (sent : List Notify) × (w : ℕ) × (poll counting 0 ≡ some (sent, w))
    × ((k : Bytes) → sent_for k sent ≤ known (find k counting.servicemap))
poll-IsListed_example = poll-IsListed counting 0 counting-IsListed

polls-Spaced_run :
    polls (early 1000 ∷ early 1500 ∷ early 2000 ∷ []) (record { didearly = false; earlytime = 0 })
    ≡ early 1000 ∷ early 2000 ∷ []
unfolding polls libupnpp.Device.Loop.on_wake
polls-Spaced_run = refl

abbrev upnp_codes : Codes
upnp_codes = record { success = pos 0; invalid_param = negsuc 100; line_size = 180 }

abbrev accepting : Accept ℕ
accepting req vars w = (pos 0, w)

abbrev failing : SoapFun ℕ
failing sc dt w = ((pos 501, dt), w + 1)

abbrev reset_request : ActionRequest
reset_request = record {
  dev_udn = codes "u:1";
  service_id = codes "counter";
  action_name = codes "Reset";
  args = [];
  resdata = [];
  err_code = pos 0;
  err_str = [];
}

counter_found : find (codes "counter") counting.servicemap ≡ some counter
unfolding find
counter_found = refl

call_back-add_action_mapping_example :
    call_back upnp_codes accepting
      (Event.action_request reset_request)
      (add_action_mapping counter (codes "Reset") failing counting)
      7
    ≡ ask upnp_codes counter failing reset_request 7
call_back-add_action_mapping_example =
    call_back-add_action_mapping upnp_codes accepting counter counter (codes "Reset") failing
      reset_request counting 7 counter_found

call_back-forget_service_example :
    call_back upnp_codes accepting
      (Event.action_request reset_request)
      (forget_service (codes "counter") counting)
      7
    ≡ refused upnp_codes (Event.action_request reset_request) 7
call_back-forget_service_example =
    call_back-forget_service upnp_codes accepting (codes "counter")
      (Event.action_request reset_request) counting 7 refl

abbrev refusing : Server ℕ
refusing = record {
  host = codes "h";
  port = 80;
  setup_web_server = λ url w. (negsuc 0, w + 1);
  set_product = λ p v w. w;
  send_advertisement = λ w. (pos 0, w);
}

bare_subdir : device_subdir (codes "u:1") ≡ some (codes "/u-1/")
unfolding device_subdir neutchars replchars from until
bare_subdir = refl

no_dir : find {V = libupnpp.VirtualDir.DirEnt ℕ ℕ} (codes "/u-1/") [] ≡ none
unfolding find
no_dir = refl

start-vdgetinfo_example :
    (r : Started ℕ ℕ ℕ) × (start 5 refusing false bare no_dirs 0 ≡ some r)
    × (vdgetinfo (codes "/u-1/" ++ codes "description.xml") r.dirs 0
        ≡ found 5 (description bare) (codes "text/xml") 0)
start-vdgetinfo_example =
    start-vdgetinfo 5 refusing bare no_dirs 0 0 (omega arith) bare_subdir (λ e. cc) refl
      (ap libupnpp.VirtualDir.Files.virtual_dir no_dir)

list_service-forget_service-poll_example :
    (ordered (list_service counter counting)
      ≡ except (codes "counter") (ordered counting) ++ (codes "counter", counter) ∷ [])
    × (ordered (forget_service (codes "counter") counting)
        ≡ except (codes "counter") (ordered counting))
    × (poll counting 0 ≡ some (poll_list (codes "u:1") (ordered counting) 0))
list_service-forget_service-poll_example =
    list_service-forget_service-poll counter (codes "counter") counting 0 counting-IsListed
