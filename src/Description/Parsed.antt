-- ===== src/Description/Parsed.antt =====
-- What a parsed description of a device holds.
use libupnpp.Prelude.{Bool, true, false, not, List, [], ◌∷◌, ◌≡◌, refl, ◌∙◌, Bytes, codes, arith}
use libupnpp.Text.Trim.{trimstring}
use libupnpp.Discovery.{Desc, Devices, device, no_more, and_more, desc_of}
use libupnpp.Xml.{Event, ElPath, Expat, deliver, parse}
use libupnpp.Xml.Nested.{parse_keeps}
use libupnpp.Description.{
  ServiceDesc, DeviceDesc, DeviceParser, end_named, in_device_list, end_element, add_chardata,
  device_handlers, adopt, base_or, complete, finished, new_parser, new_device_desc,
}

-- `ok`, as the main device has it.
abbrev pub main_ok : DeviceParser → Bool
main_ok p = (desc_of p.main).ok

end_named-ok :
    (ismain : Bool) (name dat : Bytes) (p : DeviceParser)
    → main_ok (end_named ismain name dat p) ≡ main_ok p
end_named-ok true name dat p = ground arith
end_named-ok false name dat p = ground arith

deliver-ok :
    (e : Event) (path : ElPath) (p : DeviceParser)
    → main_ok (deliver device_handlers e (path, p)).1 ≡ main_ok p
unfolding deliver device_handlers end_element add_chardata
deliver-ok (Event.start name atts at) path p = refl
deliver-ok (Event.close name at) [] p = refl
deliver-ok (Event.close name at) (el ∷ path) p =
    end_named-ok (not (in_device_list (el ∷ path))) name (trimstring p.chardata (codes " \t\n\r")) p
deliver-ok (Event.text t) [] p = refl
deliver-ok (Event.text t) (el ∷ path) p = ground arith

parse-ok :
    (expat : Expat) (s : Bytes) (p : DeviceParser)
    → main_ok p ≡ false
    → main_ok (parse expat device_handlers s p).1 ≡ false
parse-ok expat s p e =
    parse_keeps (λ q. main_ok q ≡ false) device_handlers (λ e q h. deliver-ok e q.0 q.1 ∙ h) expat s
      p e

-- Every device is complete: it has the base URL and counts as parsed.
abbrev pub AllComplete : Bytes → Devices ServiceDesc → Type 0
AllComplete base no_more = Unit
AllComplete base (and_more d ds) =
    ((desc_of d).url_base ≡ base) × ((desc_of d).ok ≡ true) × AllComplete base ds

adopt-AllComplete : (base : Bytes) (ds : Devices ServiceDesc) → AllComplete base (adopt base ds)
adopt-AllComplete base no_more = tt
adopt-AllComplete base (and_more (device d ss es) ds) = (refl, refl, adopt-AllComplete base ds)

-- What a description that counts as parsed has.
abbrev pub IsComplete : Bytes → DeviceDesc → Type 0
IsComplete url (device d ss es) = (d.desc_url ≡ url) × AllComplete d.url_base es

complete-IsComplete : (url : Bytes) (d : DeviceDesc) → IsComplete url (complete url d)
unfolding complete
complete-IsComplete url (device d ss es) = (refl, adopt-AllComplete (base_or url d.url_base) es)

complete-ok : (url : Bytes) (d : DeviceDesc) → (desc_of (complete url d)).ok ≡ true
unfolding complete
complete-ok url (device d ss es) = refl

finished-ok :
    (url : Bytes) (r : Bool × DeviceParser)
    → main_ok r.1 ≡ false
    → ((desc_of (finished url r)).ok ≡ true)
    → (r.0 ≡ true) × IsComplete url (finished url r)
unfolding finished
finished-ok url (false, p) h e = absurd (cc)
finished-ok url (true, p) h e = (refl, complete-IsComplete url p.main)

-- A description counts as parsed only if its text was accepted to the end; it then has the URL that it
-- came from, and every device embedded in it has its base URL and counts as parsed too.
pub new_device_desc-IsComplete :
    (expat : Expat) (url description : Bytes)
    → (desc_of (new_device_desc expat url description)).ok ≡ true
    → ((parse expat device_handlers description (new_parser description)).0 ≡ true)
      × IsComplete url (new_device_desc expat url description)
unfolding new_device_desc
new_device_desc-IsComplete expat url description e =
    let r = parse expat device_handlers description (new_parser description) in
    finished-ok url r (parse-ok expat description (new_parser description) refl) e

-- What describes the main device, its base URL left out, and its services.
abbrev pub own_view : DeviceDesc → Desc × List ServiceDesc
own_view (device d ss es) = (record d { url_base = [] }, ss)

end_named-own_view :
    (name dat : Bytes) (p : DeviceParser)
    → own_view (end_named false name dat p).main ≡ own_view p.main
end_named-own_view name dat p = ground arith

-- An end tag inside a list of devices leaves the main device as it was, but for its base URL and the
-- devices embedded in it: neither its description nor its services come from there.
pub end_element-own_view :
    (name : Bytes) (path : ElPath) (p : DeviceParser)
    → in_device_list path ≡ true
    → own_view (end_element name path p).main ≡ own_view p.main
unfolding end_element
end_element-own_view name path p e =
    rw e (end_named-own_view name (trimstring p.chardata (codes " \t\n\r")) p)
