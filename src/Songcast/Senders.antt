-- ===== src/Songcast/Senders.antt =====
-- libupnpp/control/linnsongcast.cxx: the state of a sender, the list of them, and receivers that are set
-- up from one. What a device's sender answers is an argument: a result, an address and metadata, which are
-- empty if they are not read.
use libupnpp.Prelude.{
  zero, suc, Bool, true, false, List, [], ◌∷◌, Option, none, some, if◌then◌else◌, Bytes, beq,
}
use libupnpp.Prelude.Int.{ℤ, pos, negsuc}
use libupnpp.Discovery.{less}
use libupnpp.Description.{ServiceDesc}
use libupnpp.OpenHome.Senders.{is_oh_sender_service}
use libupnpp.Renderer.{first_fitting}
use libupnpp.Songcast.{Reason}
use libupnpp.Songcast.Playing.{set_up_all}
use libupnpp.Songcast.Loops.{Find}

-- A sender: `metadata`, which fails with the code of an error.
pub record Sender (W : Type 0) : Type 0 where
  pub metadata : W → (ℤ × Bytes × Bytes) × W

-- A device that was found by its name, its services and the construction of a sender on one of them.
pub record FoundDevice (W : Type 0) : Type 0 where
  pub friendly_name : Bytes
  pub udn : Bytes
  pub services : List ServiceDesc
  pub new_sender : ServiceDesc → Sender W

pub data SenderReason : Type 0 where
  no_device no_sender_service : SenderReason
  metadata_failed : ℤ → SenderReason

pub record SenderState (W : Type 0) : Type 0 where
  pub nm : Bytes
  pub udn : Bytes
  pub reason : Option SenderReason
  pub has_sender : Bool
  pub uri : Bytes
  pub meta : Bytes
  pub sender : Option (Sender W)

abbrev pub Lookup : Type 0 → Type 0
Lookup W = Bytes → W → Option (FoundDevice W) × W

-- `sort`, then `unique`: the texts in order, each once.
abbrev pub insert_sorted : Bytes → List Bytes → List Bytes
insert_sorted x [] = x ∷ []
insert_sorted x (y ∷ ys) =
    let rest = insert_sorted x ys in if less y x then y ∷ rest else x ∷ y ∷ ys

abbrev pub sorted : List Bytes → List Bytes
sorted [] = []
sorted (x ∷ xs) = insert_sorted x (sorted xs)

abbrev pub unless_next : Bytes → List Bytes → List Bytes
unless_next x [] = x ∷ []
unless_next x (y ∷ ys) = if beq x y then y ∷ ys else x ∷ y ∷ ys

abbrev pub unique : List Bytes → List Bytes
unique [] = []
unique (x ∷ xs) = unless_next x (unique xs)

-- What stands before the loop of `setReceiversFromSenderWithStatus`; a failure is told as the first
-- receiver's.
pub data StartReason : Type 0 where
  sender_missing : Option SenderReason → StartReason
  no_metadata : ℤ → StartReason
  of_receiver : Reason → StartReason

abbrev pub is_success : ℤ → Bool
is_success (pos zero) = true
is_success (pos (suc k)) = false
is_success (negsuc n) = false

abbrev pub of_receivers : List (Option Reason) → List (Option StartReason)
of_receivers [] = []
of_receivers (none ∷ rs) = none ∷ of_receivers rs
of_receivers (some r ∷ rs) = some (StartReason.of_receiver r) ∷ of_receivers rs

abbrev pub no_reasons : List Bytes → List (Option StartReason)
no_reasons [] = []
no_reasons (nm ∷ nms) = none ∷ no_reasons nms

-- A reason for the first receiver and none for the others.
abbrev pub first_reason : StartReason → List Bytes → List (Option StartReason)
first_reason r [] = []
first_reason r (nm ∷ nms) = some r ∷ no_reasons nms

-- `lookForSenders`, over the devices and services that `traverse` visits.
unfoldable pub look_for_senders : List (Bytes × ServiceDesc) → List Bytes
unfolding is_oh_sender_service
look_for_senders [] = []
look_for_senders ((udn, s) ∷ visited) =
    let rest = look_for_senders visited in
    if is_oh_sender_service s.service_type then udn ∷ rest else rest

module _ {W : Type 0} where
  abbrev pub sender_on : FoundDevice W → Option ServiceDesc → Option (Sender W)
  sender_on d none = none
  sender_on d (some s) = some (d.new_sender s)

  -- `senderService`
  unfoldable pub sender_service : FoundDevice W → Option (Sender W)
  unfolding is_oh_sender_service
  sender_service d = sender_on d (first_fitting is_oh_sender_service d.services)

  abbrev pub sender_or_reason :
      Option (Sender W) → W → (Option (Sender W) × Option SenderReason) × W
  sender_or_reason none w = ((none, some SenderReason.no_sender_service), w)
  sender_or_reason (some s) w = ((some s, none), w)

  abbrev pub sender_of_device :
      Option (FoundDevice W) × W → (Option (Sender W) × Option SenderReason) × W
  unfolding sender_service
  sender_of_device (none, w) = ((none, some SenderReason.no_device), w)
  sender_of_device (some d, w) = sender_or_reason (sender_service d) w

  -- `getSender`
  unfoldable pub get_sender : Lookup W → Bytes → W → (Option (Sender W) × Option SenderReason) × W
  unfolding sender_of_device
  get_sender find nm w = sender_of_device (find nm w)

  -- `st.reset()`
  abbrev pub fresh_sender : Bytes → SenderState W
  fresh_sender nm = record {
    nm = nm;
    udn = [];
    reason = none;
    has_sender = false;
    uri = [];
    meta = [];
    sender = none;
  }

  -- After the metadata: the handle is kept on request, and after a failure.
  abbrev pub metadata_read : Bool → SenderState W → (ℤ × Bytes × Bytes) × W → SenderState W × W
  metadata_read live st ((ret, uri, meta), w) =
      let st1 : SenderState W = record st { uri = uri; meta = meta } in
      if is_success ret
      then (if live then st1 else record st1 { sender = none }, w)
      else (record st1 { reason = some (SenderReason.metadata_failed ret) }, w)

  abbrev pub sender_found : Bool → SenderState W → Option (Sender W) → W → SenderState W × W
  sender_found live st none w = (record st { reason = some SenderReason.no_sender_service }, w)
  sender_found live st (some s) w =
      metadata_read live (record st { sender = some s; has_sender = true }) (s.metadata w)

  abbrev pub device_found : Bool → Bytes → Option (FoundDevice W) × W → SenderState W × W
  unfolding sender_service
  device_found live nm (none, w) =
      (record (fresh_sender nm) { reason = some SenderReason.no_device }, w)
  device_found live nm (some d, w) =
      sender_found live (record (fresh_sender nm) { nm = d.friendly_name; udn = d.udn })
        (sender_service d) w

  -- `getSenderState`
  unfoldable pub get_sender_state : Lookup W → Bytes → Bool → W → SenderState W × W
  unfolding device_found
  get_sender_state find nm live w = device_found live nm (find nm w)

  unfoldable pub sender_states : Lookup W → List Bytes → W → List (SenderState W) × W
  unfolding get_sender_state
  sender_states find [] w = ([], w)
  sender_states find (udn ∷ udns) w =
      let (st, w1) = get_sender_state find udn false w in
      let (rest, w2) = sender_states find udns w1 in (if st.has_sender then st ∷ rest else rest, w2)

  -- `listSenders`
  unfoldable pub list_senders : Lookup W → List (Bytes × ServiceDesc) → W → List (SenderState W) × W
  unfolding sender_states look_for_senders
  list_senders find visited w = sender_states find (unique (sorted (look_for_senders visited))) w

  abbrev pub with_reasons : List (Option Reason) × W → Bool × List (Option StartReason) × W
  with_reasons (reasons, w) = (true, of_receivers reasons, w)

  abbrev pub from_metadata :
      Find W → List Bytes → (ℤ × Bytes × Bytes) × W → Bool × List (Option StartReason) × W
  from_metadata find nms ((ret, uri, meta), w) =
      if is_success ret
      then with_reasons (set_up_all find uri meta nms w)
      else (false, first_reason (StartReason.no_metadata ret) nms, w)

  abbrev pub from_sender :
      Find W
      → List Bytes
      → (Option (Sender W) × Option SenderReason) × W
      → Bool × List (Option StartReason) × W
  from_sender find nms ((none, r), w) = (false, first_reason (StartReason.sender_missing r) nms, w)
  from_sender find nms ((some s, r), w) = from_metadata find nms (s.metadata w)

  -- `setReceiversFromSenderWithStatus`; without receivers the caller's reasons stay.
  unfoldable pub set_receivers_from_sender :
      Lookup W
      → Find W
      → Bytes
      → List Bytes
      → List (Option StartReason)
      → W
      → Bool × List (Option StartReason) × W
  unfolding get_sender set_up_all
  set_receivers_from_sender look find nm [] reasons w = (true, reasons, w)
  set_receivers_from_sender look find nm (r ∷ rs) reasons w =
      from_sender find (r ∷ rs) (get_sender look nm w)
