-- ===== src/Description.antt =====
-- libupnpp/control/description.cxx and libupnpp/control/description.hxx: the description of a device, with
-- its services and the devices embedded in it. Description/Services has that of a service. The devices are
-- those that Discovery keeps.
pub mod Services
pub mod Parsed
mod Tests
use libupnpp.Prelude.{
  ℕ, Bool, true, false, not, List, [], ◌∷◌, ◌++◌, if◌then◌else◌, Bytes, codes, beq,
}
use libupnpp.Text.Case.{Sign, stringlowercmp}
use libupnpp.Text.Trim.{trimstring}
use libupnpp.Text.Url.{baseurl}
use libupnpp.Discovery.{Desc, Device, Devices, device, no_more, and_more, desc_of, embedded}
use libupnpp.Xml.{ElPath, Expat, Handlers, is_void, parse}

pub record ServiceDesc : Type 0 where
  pub service_type : Bytes
  pub service_id : Bytes
  pub scpd_url : Bytes
  pub control_url : Bytes
  pub event_sub_url : Bytes

-- `clear`
abbrev pub clear_service : ServiceDesc
clear_service = record {
  service_type = [];
  service_id = [];
  scpd_url = [];
  control_url = [];
  event_sub_url = [];
}

abbrev pub clear_desc : Desc
clear_desc = record {
  ok = false;
  device_type = [];
  friendly_name = [];
  udn = [];
  desc_url = [];
  url_base = [];
  manufacturer = [];
  model_name = [];
  xml_text = [];
}

abbrev pub DeviceDesc : Type 0
DeviceDesc = Device ServiceDesc

abbrev pub clear_device : DeviceDesc
clear_device = device clear_desc [] no_more

abbrev pub set_desc : (Desc → Desc) → DeviceDesc → DeviceDesc
set_desc f (device d ss es) = device (f d) ss es

abbrev pub push_service : ServiceDesc → DeviceDesc → DeviceDesc
push_service s (device d ss es) = device d (ss ++ s ∷ []) es

abbrev pub push_device : DeviceDesc → Devices ServiceDesc → Devices ServiceDesc
push_device e no_more = and_more e no_more
push_device e (and_more d ds) = and_more d (push_device e ds)

abbrev pub push_embedded : DeviceDesc → DeviceDesc → DeviceDesc
push_embedded e (device d ss es) = device d ss (push_device e es)

-- `UPnPDeviceParser`
pub record DeviceParser : Type 0 where
  pub main : DeviceDesc
  pub chardata : Bytes
  pub tservice : ServiceDesc
  pub tdevice : DeviceDesc

abbrev pub is_zero : Sign → Bool
is_zero Sign.minus = false
is_zero Sign.zero = true
is_zero Sign.plus = false

-- Whether `deviceList`, in any case, stands in the path.
unfoldable pub in_device_list : ElPath → Bool
unfolding stringlowercmp
in_device_list [] = false
in_device_list (el ∷ path) =
    if is_zero (stringlowercmp (codes "devicelist") el.name) then true else in_device_list path

-- A change of `*dev`, which is the main device or the one that is being read.
abbrev pub on_dev : Bool → (DeviceDesc → DeviceDesc) → DeviceParser → DeviceParser
on_dev true f p = record p { main = f p.main }
on_dev false f p = record p { tdevice = f p.tdevice }

-- The end of a `device`.
abbrev pub end_device : Bool → DeviceParser → DeviceParser
end_device true p = record p { tdevice = clear_device }
end_device false p = record p { main = push_embedded p.tdevice p.main; tdevice = clear_device }

-- The elements that describe a device.
abbrev pub end_desc_field : Bool → Bytes → Bytes → DeviceParser → DeviceParser
end_desc_field ismain name dat p =
    if beq name (codes "deviceType")
    then on_dev ismain (set_desc (λ d. record d { device_type = dat })) p
    else if beq name (codes "friendlyName")
    then on_dev ismain (set_desc (λ d. record d { friendly_name = dat })) p
    else if beq name (codes "manufacturer")
    then on_dev ismain (set_desc (λ d. record d { manufacturer = dat })) p
    else if beq name (codes "modelName")
    then on_dev ismain (set_desc (λ d. record d { model_name = dat })) p
    else if beq name (codes "UDN")
    then on_dev ismain (set_desc (λ d. record d { udn = dat })) p
    else if beq name (codes "URLBase")
    then record p { main = set_desc (λ d. record d { url_base = dat }) p.main }
    else p

-- The elements that describe a service, before those.
abbrev pub end_field : Bool → Bytes → Bytes → DeviceParser → DeviceParser
end_field ismain name dat p =
    if beq name (codes "controlURL")
    then record p { tservice = record p.tservice { control_url = dat } }
    else if beq name (codes "eventSubURL")
    then record p { tservice = record p.tservice { event_sub_url = dat } }
    else if beq name (codes "serviceType")
    then record p { tservice = record p.tservice { service_type = dat } }
    else if beq name (codes "serviceId")
    then record p { tservice = record p.tservice { service_id = dat } }
    else if beq name (codes "SCPDURL")
    then record p { tservice = record p.tservice { scpd_url = dat } }
    else end_desc_field ismain name dat p

abbrev pub end_named : Bool → Bytes → Bytes → DeviceParser → DeviceParser
end_named ismain name dat p =
    if beq name (codes "service")
    then record (on_dev ismain (push_service p.tservice) p) { tservice = clear_service }
    else if beq name (codes "device")
    then end_device ismain p
    else end_field ismain name dat p

-- `EndElement`
unfoldable pub end_element : Bytes → ElPath → DeviceParser → DeviceParser
unfolding trimstring in_device_list
end_element name path p =
    record (end_named (not (in_device_list path)) name (trimstring p.chardata (codes " \t\n\r"))
      p) { chardata = [] }

unfoldable pub add_chardata : Bytes → DeviceParser → DeviceParser
add_chardata s p = if is_void s then p else record p { chardata = p.chardata ++ s }

unfoldable pub device_handlers : Handlers DeviceParser
unfolding end_element add_chardata
device_handlers = record {
  start_element = λ name atts path p. p;
  end_element = λ name stop path p. end_element name path p;
  character_data = λ s path p. (path, add_chardata s p);
}

-- The loop over the embedded devices.
abbrev pub adopt : Bytes → Devices ServiceDesc → Devices ServiceDesc
adopt url_base no_more = no_more
adopt url_base (and_more d ds) =
    and_more (set_desc (λ e. record e { url_base = url_base; ok = true }) d) (adopt url_base ds)

abbrev pub base_or : Bytes → Bytes → Bytes
unfolding baseurl
base_or url [] = baseurl url
base_or url (c ∷ s) = c ∷ s

abbrev pub complete : Bytes → DeviceDesc → DeviceDesc
unfolding base_or
complete url (device d ss es) =
    let base = base_or url d.url_base in
    device (record d { desc_url = url; url_base = base; ok = true }) ss (adopt base es)

abbrev pub finished : Bytes → Bool × DeviceParser → DeviceDesc
unfolding complete
finished url (false, p) = p.main
finished url (true, p) = complete url p.main

-- The parser before it starts, on the device that is constructed.
abbrev pub new_parser : Bytes → DeviceParser
new_parser description = record {
  main = device (record clear_desc { xml_text = description }) [] no_more;
  chardata = [];
  tservice = clear_service;
  tdevice = clear_device;
}

-- The constructor of `UPnPDeviceDesc` from a description.
unfoldable pub new_device_desc : Expat → Bytes → Bytes → DeviceDesc
unfolding finished parse device_handlers
new_device_desc expat url description =
    finished url (parse expat device_handlers description (new_parser description))
