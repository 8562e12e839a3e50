-- ===== src/Description/Tests.antt =====
-- A description of a device with one embedded device.
use libupnpp.Prelude.{true, List, [], ◌∷◌, ◌≡◌, refl, Bytes, codes}
use libupnpp.Discovery.{desc_of}
use libupnpp.Xml.{Event, StackEl, Expat, parse}
use libupnpp.Description.{device_handlers, end_element, new_parser, new_device_desc, in_device_list}
use libupnpp.Description.Parsed.{
  IsComplete, own_view, new_device_desc-IsComplete, end_element-own_view,
}

abbrev events : List Event
events =
    Event.start (codes "device") [] 0
    ∷ Event.start (codes "deviceList") [] 1
    ∷ Event.start (codes "device") [] 2
    ∷ Event.start (codes "UDN") [] 3
    ∷ Event.text (codes " uuid:7 ")
    ∷ Event.close (codes "UDN") 4
    ∷ Event.close (codes "device") 5
    ∷ Event.close (codes "deviceList") 6
    ∷ Event.close (codes "device") 7
    ∷ []

abbrev expat : Expat
expat = record { chunk = λ s. (events, true); final = λ s. ([], true) }

abbrev url : Bytes
url = codes "http://h/d.xml"

parses : (desc_of (new_device_desc expat url (codes "<d/>"))).ok ≡ true
unfolding new_device_desc
parses = refl

new_device_desc-IsComplete_example :
    ((parse expat device_handlers (codes "<d/>") (new_parser (codes "<d/>"))).0 ≡ true)
    × IsComplete url (new_device_desc expat url (codes "<d/>"))
new_device_desc-IsComplete_example = new_device_desc-IsComplete expat url (codes "<d/>") parses

abbrev inner : StackEl
inner = record { name = codes "UDN"; start_index = 3; attributes = []; contents = [] }

abbrev outer : StackEl
outer = record { name = codes "deviceList"; start_index = 1; attributes = []; contents = [] }

listed : in_device_list (inner ∷ outer ∷ []) ≡ true
unfolding in_device_list
listed = refl

end_element-own_view_example :
    own_view (end_element (codes "UDN") (inner ∷ outer ∷ []) (new_parser (codes "<d/>"))).main
    ≡ own_view (new_parser (codes "<d/>")).main
end_element-own_view_example =
    end_element-own_view (codes "UDN") (inner ∷ outer ∷ []) (new_parser (codes "<d/>")) listed
