-- ===== src/Device/Start.antt =====
-- A device's start: its description becomes a file of the virtual directory, and libupnp's web server
-- and advertisements are set up. `UpnpGetServerIpAddress` is taken to give an address.
use libupnpp.Prelude.{
  ℕ, Bool, true, false, List, [], ◌∷◌, ◌++◌, Option, none, some, if◌then◌else◌, Bytes, codes,
}
use libupnpp.Prelude.Int.{ℤ, pos}
use libupnpp.Text.Decimal.{i2s}
use libupnpp.VirtualDir.{Dirs, add_file}
use libupnpp.Device.{DevXml, UpnpDevice}
use libupnpp.Device.Dispatch.{same_int}

-- libupnp: the server's address, `setupWebServer`, `UpnpDeviceSetProduct`, `UpnpSendAdvertisement`.
pub record Server (W : Type 0) : Type 0 where
  pub host : Bytes
  pub port : ℕ
  pub setup_web_server : Bytes → W → ℤ × W
  pub set_product : Bytes → Bytes → W → W
  pub send_advertisement : W → ℤ × W

abbrev embedded_devices : List (Bytes × DevXml) → Bytes
embedded_devices [] = []
embedded_devices ((udn, x) ∷ entries) =
    codes "      <device>\n"
    ++ (x.propsxml
        ++ (codes "        <UDN>"
            ++ (udn
                ++ (codes "</UDN>\n"
                    ++ (codes "        <serviceList>\n"
                        ++ (x.servicexml
                            ++ (codes "        </serviceList>\n"
                                ++ (codes "      </device>\n" ++ embedded_devices entries))))))))

abbrev device_list : List (Bytes × DevXml) → Bytes
device_list [] = []
device_list (e ∷ entries) =
    codes "    <deviceList>\n" ++ (embedded_devices (e ∷ entries) ++ codes "</deviceList>\n")

abbrev description_head : Bytes
description_head =
    codes
      "<?xml version=\"1.0\" encoding=\"utf-8\"?>\n<root xmlns=\"urn:schemas-upnp-org:device-1-0\">\n  <specVersion>\n    <major>1</major>\n    <minor>1</minor>\n  </specVersion>\n  <device>\n"

module _ {W : Type 0} where
  -- The description document, `descxml`.
  unfoldable pub description : UpnpDevice W → Bytes
  description d =
      description_head
      ++ (d.myxml.propsxml
          ++ (codes "    <UDN>"
              ++ (d.device_id
                  ++ (codes "</UDN>\n"
                      ++ (codes "    <serviceList>\n"
                          ++ (d.myxml.servicexml
                              ++ (codes "    </serviceList>\n"
                                  ++ (device_list d.embedxml
                                      ++ codes "  </device>\n</root>\n"))))))))

  -- Both must be there.
  unfoldable pub set_product_version : Option Bytes → Option Bytes → UpnpDevice W → UpnpDevice W
  set_product_version none version d = d
  set_product_version (some product) none d = d
  set_product_version (some product) (some version) d = record d {
    product = product;
    version = version;
  }

-- `ipv4tostrurl`
unfoldable pub ipv4tostrurl : Bytes → Option Bytes → Option Bytes
ipv4tostrurl host none = none
ipv4tostrurl host (some port) = some (codes "http://" ++ (host ++ (codes ":" ++ port)))

pub record Started (H V W : Type 0) : Type 0 where
  pub ok : Bool
  pub dirs : Dirs H V
  pub world : W

abbrev name_product : {W : Type 0} → Server W → UpnpDevice W → W → W
name_product server d w = elim d.product [ [] ↦ w | c ∷ s ↦ server.set_product (c ∷ s) d.version w ]

module _ {H V W : Type 0} where
  abbrev advertised : ℤ × W → Dirs H V → Started H V W
  advertised (ret, w) dirs = record { ok = same_int ret (pos 0); dirs = dirs; world = w }

  abbrev pub set_up : Server W → UpnpDevice W → ℤ × W → Dirs H V → Started H V W
  set_up server d (ret, w) dirs =
      if same_int ret (pos 0)
      then advertised (server.send_advertisement (name_product server d w)) dirs
      else record { ok = false; dirs = dirs; world = w }

  -- `none` is a port whose number is not printed.
  abbrev pub serve_at :
      Server W → UpnpDevice W → Option Bytes → W → Dirs H V → Option (Started H V W)
  serve_at server d none w dirs = none
  serve_at server d (some url) w dirs = some (
      set_up server d (server.setup_web_server (url ++ (d.devsubd ++ codes "description.xml")) w)
        dirs)

  -- `start`; the flag tells whether the device is embedded. The clock's reading is an argument.
  unfoldable pub start : ℕ → Server W → Bool → UpnpDevice W → Dirs H V → W → Option (Started H V W)
  unfolding description
  start now server embedded d dirs w =
      if embedded
      then some (record { ok = true; dirs = dirs; world = w })
      else if dirs.available
      then serve_at server d (ipv4tostrurl server.host (i2s (pos server.port))) w
          (add_file now d.devsubd (codes "description.xml") (description d) (codes "text/xml")
            dirs).1
      else some (record { ok = false; dirs = dirs; world = w })

  -- `addVFile`: the path, if it was added, and the directories.
  unfoldable pub add_vfile :
      ℕ → Bytes → Bytes → Bytes → UpnpDevice W → Dirs H V → Option Bytes × Dirs H V
  add_vfile now name contents mime d dirs =
      let r = add_file now d.devsubd name contents mime dirs in
      if dirs.available then (if r.0 then some (d.devsubd ++ name) else none, r.1) else (none, dirs)
