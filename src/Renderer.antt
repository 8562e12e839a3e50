-- ===== src/Renderer.antt =====
-- libupnpp/control/mediarenderer.cxx, and the search of libupnpp/control/mediaserver.cxx: the services of a
-- renderer, made when a client asks for them and kept as long as a client holds them. A service object is
-- a number; `alive` says which ones are held, which is all that a weak pointer knows.
pub mod Kinds
pub mod Handles
mod Tests
use libupnpp.Prelude.{
  ℕ, Bool, true, false, ◌&&◌, ◌||◌, ◌==◌, List, [], ◌∷◌, Option, none, some, if◌then◌else◌, Bytes,
  codes, beq, assign,
}
use libupnpp.Discovery.{Desc, Device, Descriptor, device, desc_of, services, simple_traverse}
use libupnpp.Description.{ServiceDesc, DeviceDesc}
use libupnpp.OpenHome.{is_service}
use libupnpp.OpenHome.Product.{is_oh_pr_service}
use libupnpp.OpenHome.Radio.{is_oh_rd_service}
use libupnpp.OpenHome.Receiver.{is_oh_rc_service}
use libupnpp.OpenHome.Info.{is_oh_info_service, is_oh_tm_service}
use libupnpp.OpenHome.Volume.{is_oh_vl_service}
use libupnpp.OpenHome.Senders.{is_oh_sender_service}
use libupnpp.Renderer.Kinds.{
  is_rdc_service, is_avt_service, is_con_man_service, is_oh_pl_service, is_cd_service,
}

-- The weak pointers of `MediaRenderer::Internal`.
pub data Slot : Type 0 where
  rdc_slot avt_slot cnm_slot ohpr_slot ohpl_slot ohtm_slot ohvl_slot ohrc_slot ohrd_slot ohif_slot
        ohsn_slot :
      Slot

-- The test that the services of a slot pass.
abbrev pub fits : Slot → Bytes → Bool
fits Slot.rdc_slot = is_rdc_service
fits Slot.avt_slot = is_avt_service
fits Slot.cnm_slot = is_con_man_service
fits Slot.ohpr_slot = is_oh_pr_service
fits Slot.ohpl_slot = is_oh_pl_service
fits Slot.ohtm_slot = is_oh_tm_service
fits Slot.ohvl_slot = is_oh_vl_service
fits Slot.ohrc_slot = is_oh_rc_service
fits Slot.ohrd_slot = is_oh_rd_service
fits Slot.ohif_slot = is_oh_info_service
fits Slot.ohsn_slot = is_oh_sender_service

-- The bodies of the two `MDAccum`, by the services that they look for.
abbrev pub accum :
    (Bytes → Bool)
    → Bytes
    → DeviceDesc
    → ServiceDesc
    → List (Bytes × DeviceDesc)
    → Bool × List (Bytes × DeviceDesc)
accum wanted friendly_name dev s out =
    let named = beq friendly_name [] || beq friendly_name (desc_of dev).friendly_name in
    (true, if wanted s.service_type && named then assign (desc_of dev).udn dev out else out)

unfoldable pub md_accum :
    Bytes → DeviceDesc → ServiceDesc → List (Bytes × DeviceDesc) → Bool × List (Bytes × DeviceDesc)
unfolding assign
md_accum = accum (λ st. is_rdc_service st || is_oh_pr_service st)

unfoldable pub ms_accum :
    Bytes → DeviceDesc → ServiceDesc → List (Bytes × DeviceDesc) → Bool × List (Bytes × DeviceDesc)
unfolding assign
ms_accum = accum is_cd_service

abbrev pub values : List (Bytes × DeviceDesc) → List DeviceDesc
values [] = []
values ((k, v) ∷ m) = v ∷ values m

-- `getDeviceDescs` of the renderers and of the servers, over the pool that `traverse` visits.
unfoldable pub get_device_descs : List (Bytes × Descriptor ServiceDesc) → Bytes → List DeviceDesc
unfolding simple_traverse md_accum
get_device_descs pool friendly_name = values (simple_traverse (md_accum friendly_name) pool []).1

unfoldable pub get_server_descs : List (Bytes × Descriptor ServiceDesc) → Bytes → List DeviceDesc
unfolding simple_traverse ms_accum
get_server_descs pool friendly_name = values (simple_traverse (ms_accum friendly_name) pool []).1

-- A renderer: its description and its weak pointers.
pub record MediaRenderer : Type 0 where
  pub dev : DeviceDesc
  pub slots : Slot → Option ℕ

abbrev pub slot_number : Slot → ℕ
slot_number Slot.rdc_slot = 0
slot_number Slot.avt_slot = 1
slot_number Slot.cnm_slot = 2
slot_number Slot.ohpr_slot = 3
slot_number Slot.ohpl_slot = 4
slot_number Slot.ohtm_slot = 5
slot_number Slot.ohvl_slot = 6
slot_number Slot.ohrc_slot = 7
slot_number Slot.ohrd_slot = 8
slot_number Slot.ohif_slot = 9
slot_number Slot.ohsn_slot = 10

abbrev pub same_slot : Slot → Slot → Bool
same_slot a b = slot_number a == slot_number b

abbrev pub set_slot : Slot → Option ℕ → MediaRenderer → MediaRenderer
set_slot k h r = record r { slots = λ j. if same_slot k j then h else r.slots j }

-- `lock`
abbrev pub lock : (ℕ → Bool) → Option ℕ → Option ℕ
lock alive none = none
lock alive (some h) = if alive h then some h else none

-- The loop over the services of the device, up to the first that fits.
abbrev pub first_fitting : (Bytes → Bool) → List ServiceDesc → Option ServiceDesc
first_fitting fit [] = none
first_fitting fit (s ∷ ss) = if fit s.service_type then some s else first_fitting fit ss

-- The construction of a service object.
abbrev pub Make : Type 0 → Type 0
Make W = Slot → DeviceDesc → ServiceDesc → W → ℕ × W

abbrev pub is_some : Option ℕ → Bool
is_some none = false
is_some (some h) = true

abbrev pub resubs_order : List Slot
resubs_order =
    Slot.rdc_slot ∷ Slot.avt_slot ∷ Slot.cnm_slot ∷ Slot.ohpr_slot ∷ Slot.ohpl_slot ∷ Slot.ohtm_slot
    ∷ Slot.ohvl_slot ∷ Slot.ohrc_slot ∷ Slot.ohrd_slot ∷ Slot.ohif_slot ∷ Slot.ohsn_slot ∷ []

module _ {W : Type 0} where
  abbrev pub made :
      Slot → MediaRenderer → Make W → W → Option ServiceDesc → Option ℕ × MediaRenderer × W
  made k r make w none = (none, set_slot k none r, w)
  made k r make w (some s) = let (h, w1) = make k r.dev s w in (some h, set_slot k (some h) r, w1)

  abbrev pub held_or_made :
      Slot → MediaRenderer → Make W → W → Option ℕ → Option ℕ × MediaRenderer × W
  held_or_made k r make w (some h) = (some h, r, w)
  held_or_made k r make w none = made k r make w (first_fitting (fits k) (services r.dev))

  -- The functions that give a service: one that is still held, or else a new one.
  unfoldable pub handle :
      Slot → (ℕ → Bool) → Make W → MediaRenderer → W → Option ℕ × MediaRenderer × W
  handle k alive make r w = held_or_made k r make w (lock alive (r.slots k))

  unfoldable pub rdc : (ℕ → Bool) → Make W → MediaRenderer → W → Option ℕ × MediaRenderer × W
  unfolding handle
  rdc = handle Slot.rdc_slot

  unfoldable pub avt : (ℕ → Bool) → Make W → MediaRenderer → W → Option ℕ × MediaRenderer × W
  unfolding handle
  avt = handle Slot.avt_slot

  unfoldable pub conman : (ℕ → Bool) → Make W → MediaRenderer → W → Option ℕ × MediaRenderer × W
  unfolding handle
  conman = handle Slot.cnm_slot

  unfoldable pub ohpr : (ℕ → Bool) → Make W → MediaRenderer → W → Option ℕ × MediaRenderer × W
  unfolding handle
  ohpr = handle Slot.ohpr_slot

  unfoldable pub ohpl : (ℕ → Bool) → Make W → MediaRenderer → W → Option ℕ × MediaRenderer × W
  unfolding handle
  ohpl = handle Slot.ohpl_slot

  unfoldable pub ohrc : (ℕ → Bool) → Make W → MediaRenderer → W → Option ℕ × MediaRenderer × W
  unfolding handle
  ohrc = handle Slot.ohrc_slot

  unfoldable pub ohrd : (ℕ → Bool) → Make W → MediaRenderer → W → Option ℕ × MediaRenderer × W
  unfolding handle
  ohrd = handle Slot.ohrd_slot

  unfoldable pub ohif : (ℕ → Bool) → Make W → MediaRenderer → W → Option ℕ × MediaRenderer × W
  unfolding handle
  ohif = handle Slot.ohif_slot

  unfoldable pub ohsn : (ℕ → Bool) → Make W → MediaRenderer → W → Option ℕ × MediaRenderer × W
  unfolding handle
  ohsn = handle Slot.ohsn_slot

  unfoldable pub ohtm : (ℕ → Bool) → Make W → MediaRenderer → W → Option ℕ × MediaRenderer × W
  unfolding handle
  ohtm = handle Slot.ohtm_slot

  unfoldable pub ohvl : (ℕ → Bool) → Make W → MediaRenderer → W → Option ℕ × MediaRenderer × W
  unfolding handle
  ohvl = handle Slot.ohvl_slot

  -- `hasOpenHome`
  unfoldable pub has_open_home : (ℕ → Bool) → Make W → MediaRenderer → W → Bool × MediaRenderer × W
  unfolding ohpr
  has_open_home alive make r w = let (h, r1, w1) = ohpr alive make r w in (is_some h, r1, w1)

  -- RESUBS_ONE: a service that is held is subscribed again, and a failure ends it all.
  abbrev pub resubs_one : (ℕ → W → Bool × W) → Option ℕ → W → Bool × W
  resubs_one re_subscribe none w = (true, w)
  resubs_one re_subscribe (some h) w = re_subscribe h w

  abbrev pub and_rest : Bool × W → (W → Bool × W) → Bool × W
  and_rest (true, w) rest = rest w
  and_rest (false, w) rest = (false, w)

  abbrev pub resubs_slots :
      (ℕ → Bool) → (ℕ → W → Bool × W) → MediaRenderer → List Slot → W → Bool × W
  resubs_slots alive re_subscribe r [] w = (true, w)
  resubs_slots alive re_subscribe r (k ∷ ks) w =
      and_rest (resubs_one re_subscribe (lock alive (r.slots k)) w)
        (resubs_slots alive re_subscribe r ks)

  unfoldable pub re_subscribe_all : (ℕ → Bool) → (ℕ → W → Bool × W) → MediaRenderer → W → Bool × W
  re_subscribe_all alive re_subscribe r w = resubs_slots alive re_subscribe r resubs_order w
