-- ===== src/Renderer/Kinds.antt =====
-- libupnpp/control: the tests of service and device types, by which the services of renderers and servers
-- are found in descriptions.
use libupnpp.Prelude.{Bool, Bytes, codes}
use libupnpp.OpenHome.{is_service}

unfoldable pub is_rdc_service : Bytes → Bool
unfolding is_service
is_rdc_service st = is_service (codes "urn:schemas-upnp-org:service:RenderingControl:1") st

unfoldable pub is_avt_service : Bytes → Bool
unfolding is_service
is_avt_service st = is_service (codes "urn:schemas-upnp-org:service:AVTransport:1") st

unfoldable pub is_con_man_service : Bytes → Bool
unfolding is_service
is_con_man_service st = is_service (codes "urn:schemas-upnp-org:service:ConnectionManager:1") st

unfoldable pub is_oh_pl_service : Bytes → Bool
unfolding is_service
is_oh_pl_service st = is_service (codes "urn:av-openhome-org:service:Playlist:1") st

unfoldable pub is_cd_service : Bytes → Bool
unfolding is_service
is_cd_service st = is_service (codes "urn:schemas-upnp-org:service:ContentDirectory:1") st

unfoldable pub is_mr_device : Bytes → Bool
unfolding is_service
is_mr_device st = is_service (codes "urn:schemas-upnp-org:device:MediaRenderer:1") st

unfoldable pub is_ms_device : Bytes → Bool
unfolding is_service
is_ms_device st = is_service (codes "urn:schemas-upnp-org:device:MediaServer:1") st
