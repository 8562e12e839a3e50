-- ===== src/Device.antt =====
-- libupnpp/device/device.cxx and libupnpp/device/service.cxx: a device with its services, the actions
-- that clients ask for, and the events that it sends. A service's own code and libupnp act on a world
-- `W`. A service is held by reference, so its record here is its immutable data with its functions. An
-- embedded device writes its description into its root device, which is an argument of `addService`.
pub mod Dispatch
pub mod Loop
pub mod Services
pub mod Ordered
pub mod Actions
pub mod Events
pub mod Start
pub mod Description
mod Tests
use libupnpp.Prelude.{
  ℕ, Bool, true, false, List, [], ◌∷◌, ◌++◌, Option, none, some, if◌then◌else◌, Bytes, codes, beq,
  find, assign, erase,
}
use libupnpp.Prelude.Int.{ℤ}
use libupnpp.Soap.{SoapIncoming, SoapOutgoing}
use libupnpp.Discovery.{store}
use libupnpp.Text.Trim.{neutchars}
use libupnpp.VirtualDir.{Dirs, add_file}

pub record DevXml : Type 0 where
  pub propsxml : Bytes
  pub servicexml : Bytes

-- `UpnpService`: what its constructor is given, and its virtual functions. `get_event_data` returns
-- its result with the names and the values.
pub record UpnpService (W : Type 0) : Type 0 where
  pub service_type : Bytes
  pub service_id : Bytes
  pub xml_fn : Bytes
  pub noevents : Bool
  pub get_event_data : Bool → W → (Bool × List Bytes × List Bytes) × W
  pub err_string : ℕ → Bytes

-- `soapfun`
abbrev pub SoapFun : Type 0 → Type 0
SoapFun W = SoapIncoming → SoapOutgoing → W → (ℤ × SoapOutgoing) × W

pub record UpnpDevice (W : Type 0) : Type 0 where
  pub device_id : Bytes
  pub devsubd : Bytes
  pub myxml : DevXml
  pub embedxml : List (Bytes × DevXml)
  pub servicemap : List (Bytes × UpnpService W)
  pub serviceids : List Bytes
  pub calls : List (Bytes × SoapFun W)
  pub need_exit : Bool
  pub product : Bytes
  pub version : Bytes

-- The characters that are replaced in the names of files.
pub replchars : Bytes
replchars = codes "\"#%;<>?[\\]^`{|}:/ "

-- `std::find` and `erase`
unfoldable pub erase_id : Bytes → List Bytes → List Bytes
erase_id k [] = []
erase_id k (j ∷ js) = if beq j k then js else j ∷ erase_id k js

abbrev pub subdir_of : Option Bytes → Option Bytes
subdir_of none = none
subdir_of (some s) = some (codes "/" ++ (s ++ codes "/"))

-- The file names that a device and a service are served under.
unfoldable pub device_subdir : Bytes → Option Bytes
unfolding replchars
device_subdir id = subdir_of (neutchars id replchars b'-')

unfoldable pub service_nick : Bytes → Option Bytes
unfolding replchars
service_nick st = neutchars st replchars b'-'

-- The fragment of the description that `addService` appends.
unfoldable pub service_xml : Bytes → Bytes → Bytes → Bytes → Bytes
service_xml st id subdir nick =
    codes "<service>\n <serviceType>"
    ++ (st
        ++ (codes "</serviceType>\n <serviceId>"
            ++ (id
                ++ (codes "</serviceId>\n <SCPDURL>"
                    ++ (subdir
                        ++ (nick
                            ++ (codes ".xml</SCPDURL>\n <controlURL>"
                                ++ (subdir
                                    ++ (codes "ctl-"
                                        ++ (nick
                                            ++ (codes "</controlURL>\n <eventSubURL>"
                                                ++ (subdir
                                                    ++ (codes "evt-"
                                                        ++ (nick
                                                            ++ codes
                                                            "</eventSubURL>\n</service>\n"))))))))))))))

-- What `addService` has done: its result, the device, its root, and the directories.
pub record Added (W H V : Type 0) : Type 0 where
  pub ok : Bool
  pub dev : UpnpDevice W
  pub root : Option (UpnpDevice W)
  pub dirs : Dirs H V

module _ {W : Type 0} where
  -- `servicemap[id] = serv`, and the id moved to the end of the ids.
  unfoldable pub list_service : UpnpService W → UpnpDevice W → UpnpDevice W
  list_service serv d = record d {
    servicemap = assign serv.service_id serv d.servicemap;
    serviceids = erase_id serv.service_id d.serviceids ++ serv.service_id ∷ [];
  }

  -- The XML fragments that a device writes to: its own, or those that its root has for it.
  abbrev pub own_xml : UpnpDevice W → Option (UpnpDevice W) → Option DevXml
  own_xml d none = some d.myxml
  own_xml d (some root) = find d.device_id root.embedxml

  abbrev pub put_xml :
      DevXml → UpnpDevice W → Option (UpnpDevice W) → UpnpDevice W × Option (UpnpDevice W)
  put_xml x d none = (record d { myxml = x }, none)
  put_xml x d (some root) = (d, some (record root { embedxml = store d.device_id x root.embedxml }))

-- The properties are read when they are not there yet: `readLibFile("", *propsxml)`.
abbrev pub with_props : (Bytes → Option Bytes) → DevXml → Option DevXml
with_props read_lib x = elim x.propsxml [
  | [] ↦ elim (read_lib []) [ none ↦ none | some t ↦ some (record x { propsxml = t }) ]
  | c ∷ s ↦ some x
]

-- The definition of a service becomes a file of the device's directory, if it can be read. A null
-- `VirtualDir` would be called.
abbrev publish_scpd :
    {H V : Type 0} → ℕ → Bytes → Bytes → Option Bytes → Dirs H V → Option (Dirs H V)
publish_scpd now subdir nick none dirs = some dirs
publish_scpd now subdir nick (some scpd) dirs =
    if dirs.available
    then some (add_file now subdir (nick ++ codes ".xml") scpd (codes "application/xml") dirs).1
    else none

abbrev describe : {W : Type 0} → UpnpService W → Bytes → Bytes → DevXml → DevXml
describe serv subdir nick x = record x {
  servicexml = x.servicexml ++ service_xml serv.service_type serv.service_id subdir nick;
}

module _ {W H V : Type 0} where
  abbrev added : UpnpDevice W × Option (UpnpDevice W) → Option (Dirs H V) → Option (Added W H V)
  added (d, root) none = none
  added (d, root) (some dirs) = some (record { ok = true; dev = d; root = root; dirs = dirs })

  abbrev add_with_xml :
      (Bytes → Option Bytes)
      → ℕ
      → UpnpService W
      → UpnpDevice W
      → Option (UpnpDevice W)
      → Dirs H V
      → Option DevXml
      → Option Bytes
      → Option (Added W H V)
  add_with_xml read_lib now serv d root dirs none nick =
      some (record { ok = false; dev = d; root = root; dirs = dirs })
  add_with_xml read_lib now serv d root dirs (some x) none = none
  add_with_xml read_lib now serv d root dirs (some x) (some nick) =
      added (put_xml (describe serv d.devsubd nick x) (list_service serv d) root)
        (publish_scpd now d.devsubd nick (read_lib serv.xml_fn) dirs)

-- `addService`. The flag false: the embedded device is unknown to its root, or the properties
-- cannot be read.
abbrev props_of : (Bytes → Option Bytes) → Option DevXml → Option DevXml
props_of read_lib none = none
props_of read_lib (some x) = with_props read_lib x

module _ {W H V : Type 0} where
  unfoldable pub add_service :
      (Bytes → Option Bytes)
      → ℕ
      → UpnpService W
      → UpnpDevice W
      → Option (UpnpDevice W)
      → Dirs H V
      → Option (Added W H V)
  add_service read_lib now serv d root dirs =
      add_with_xml read_lib now serv d root dirs (props_of read_lib (own_xml d root))
        (service_nick serv.service_type)

module _ {W : Type 0} where
  unfoldable pub forget_service : Bytes → UpnpDevice W → UpnpDevice W
  forget_service id d = record d {
    servicemap = erase id d.servicemap;
    serviceids = erase_id id d.serviceids;
  }

  unfoldable pub add_action_mapping :
      UpnpService W → Bytes → SoapFun W → UpnpDevice W → UpnpDevice W
  add_action_mapping serv act fun d = record d {
    calls = assign (act ++ serv.service_id) fun d.calls;
  }

  -- A new device; an embedded one gets an empty entry at its root.
  unfoldable pub new_device : Bytes → Option (UpnpDevice W)
  new_device id = elim (device_subdir id) [
    | none ↦ none
    | some subdir ↦ some (record {
      device_id = id;
      devsubd = subdir;
      myxml = record { propsxml = []; servicexml = [] };
      embedxml = [];
      servicemap = [];
      serviceids = [];
      calls = [];
      need_exit = false;
      product = [];
      version = [];
    })
  ]

  unfoldable pub embed_device : Bytes → UpnpDevice W → UpnpDevice W
  embed_device id root = record root {
    embedxml = store id (record { propsxml = []; servicexml = [] }) root.embedxml;
  }
