-- ===== src/Discovery/Tests.antt =====
-- The theorems on discovery at a pool of two devices, with visitors that note what they are shown.
use libupnpp.Prelude.{
  ℕ, ◌*◌, ◌^◌, true, false, List, [], ◌∷◌, ◌++◌, ◌≡◌, refl, none, some, Bytes, codes, find,
}
use libupnpp.Prelude.Int.{pos}
use libupnpp.Discovery.{
  Desc, Device, device, no_more, and_more, desc_of, Visitor, Descriptor, Task, Directory, explore,
  expire_devices, expire_walk, call_all, simple_visit, visit_services, visit_embedded,
  simple_traverse,
}
use libupnpp.Discovery.Lookup.{select-first, first, candidates, get_dev_by_selector-found}
use libupnpp.Discovery.Pool.{IsSorted}
use libupnpp.Discovery.Selector.{
  select, select_embedded, cmp_udn, cmp_fname, get_dev_by_selector, found,
}
use libupnpp.Discovery.Tasks.{find-explore, find-expire_devices, alive_entry}
use libupnpp.Discovery.Visits.{simple_traverse-see, see, all_pairs}
use libupnpp.Discovery.Messages.{UpnpDiscovery, Message, Traffic, clu_call_back, Step, Reach}
use libupnpp.Discovery.Downloads.{IsExclusive, Reach-IsExclusive}

abbrev named : Bytes → Desc
named n = record {
  ok = true;
  device_type = [];
  friendly_name = n;
  udn = n;
  desc_url = [];
  url_base = [];
  manufacturer = [];
  model_name = [];
  xml_text = [];
}

abbrev radio : Device ℕ
radio =
    device (named (codes "radio")) (1 ∷ 2 ∷ [])
      (and_more (device (named (codes "tuner")) (3 ∷ []) no_more) no_more)

abbrev store_room : Device ℕ
store_room = device (named (codes "store")) (4 ∷ []) no_more

abbrev radio_seen : Descriptor ℕ
radio_seen = record { dev = radio; last_seen = 10 ^ 9; expires = pos 5 }

abbrev store_seen : Descriptor ℕ
store_seen = record { dev = store_room; last_seen = 10 ^ 9; expires = pos 1800 }

abbrev note : Visitor ℕ (List ℕ)
note d s w = (true, w ++ s ∷ [])

abbrev two_devices : Directory ℕ (List ℕ)
two_devices = record {
  devices = (codes "r", radio_seen) ∷ (codes "s", store_seen) ∷ [];
  callbacks = note ∷ [];
  lost_callbacks = note ∷ [];
  downloading = [];
  search_timeout = 2;
  last_search = 10 ^ 9;
  initial_search_done = false;
  searches = 1;
}

abbrev in_order : IsSorted two_devices.devices
in_order = ((refl, tt), (tt, tt))

abbrev parsed : Bytes → Bytes → Device ℕ
parsed url text = device (named text) (9 ∷ []) no_more

abbrev arrival : Task
arrival = record {
  alive = true;
  url = [];
  description = codes "lamp";
  device_id = codes "m";
  expires = pos 60;
}

abbrev departure : Task
departure = record {
  alive = false;
  url = [];
  description = [];
  device_id = codes "r";
  expires = pos 60;
}

find-explore_example : find (codes "r") (explore parsed 5 departure two_devices []).0.devices ≡ none
find-explore_example = find-explore parsed 5 departure (codes "r") two_devices []

find-expire_devices_example :
    (find (codes "r") (expire_devices (some true) (7 * 10 ^ 9) 7 7 7 two_devices []).0.devices
      ≡ alive_entry (7 * 10 ^ 9) (find (codes "r") two_devices.devices))
    × IsSorted (expire_devices (some true) (7 * 10 ^ 9) 7 7 7 two_devices []).0.devices
find-expire_devices_example =
    find-expire_devices (some true) (7 * 10 ^ 9) 7 7 7 two_devices [] (codes "r") in_order

lost_run : (expire_devices (some true) (7 * 10 ^ 9) 7 7 7 two_devices []).1 ≡ 1 ∷ 2 ∷ 3 ∷ []
unfolding expire_devices expire_walk call_all simple_visit visit_services visit_embedded
lost_run = refl

simple_traverse-see_example :
    simple_traverse note two_devices.devices [] ≡ see note (all_pairs two_devices.devices) []
simple_traverse-see_example = simple_traverse-see note two_devices.devices []

select-first_example :
    select cmp_udn (codes "tuner") two_devices.devices
    ≡ first cmp_udn (codes "tuner") (candidates two_devices.devices)
select-first_example = select-first cmp_udn (codes "tuner") two_devices.devices

abbrev tuner : Device ℕ
tuner = device (named (codes "tuner")) (3 ∷ []) no_more

udn_run : get_dev_by_selector cmp_udn (codes "tuner") ((10 ^ 9, two_devices) ∷ []) ≡ found tuner
unfolding get_dev_by_selector select select_embedded cmp_udn
udn_run = refl

fname_run :
    get_dev_by_selector cmp_fname (codes "store") ((10 ^ 9, two_devices) ∷ []) ≡ found store_room
unfolding get_dev_by_selector select select_embedded cmp_fname
fname_run = refl

get_dev_by_selector-found_example :
    ((desc_of tuner).udn ≡ codes "tuner") × ((desc_of store_room).friendly_name ≡ codes "store")
get_dev_by_selector-found_example =
    get_dev_by_selector-found (codes "tuner") (codes "store") ((10 ^ 9, two_devices) ∷ [])
      ((10 ^ 9, two_devices) ∷ []) tuner store_room udn_run fname_run

abbrev hello : UpnpDiscovery
hello = record {
  device_type = [];
  service_type = [];
  location = codes "http://h/d.xml";
  device_id = codes "uuid:d";
  expires = pos 1800;
}

abbrev quiet : Traffic
quiet = record { downloading = []; running = []; queued = [] }

Reach-IsExclusive_example :
    IsExclusive
      (clu_call_back true (Message.alive hello) (clu_call_back true (Message.alive hello) quiet))
Reach-IsExclusive_example =
    Reach-IsExclusive
      (clu_call_back true (Message.alive hello) (clu_call_back true (Message.alive hello) quiet))
      (Reach.then_step (clu_call_back true (Message.alive hello) quiet)
        (clu_call_back true (Message.alive hello) (clu_call_back true (Message.alive hello) quiet))
        (Reach.then_step quiet (clu_call_back true (Message.alive hello) quiet) Reach.at_start
          (Step.starts true (Message.alive hello) quiet))
        (Step.starts true (Message.alive hello) (clu_call_back true (Message.alive hello) quiet)))
