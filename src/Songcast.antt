-- ===== src/Songcast.antt =====
-- libupnpp/control/linnsongcast.cxx: receivers that are set up to play from a sender, or from another
-- receiver, and stopped. A renderer is what its product and receiver services do on a world `W`; a
-- failed call gives `none` or `false`. The text of a reason is its kind here.
pub mod States
pub mod Playing
pub mod Loops
pub mod Senders
mod Tests
use libupnpp.Prelude.{
  ℕ, zero, suc, ◌+◌, Bool, true, false, not, ◌||◌, List, [], ◌∷◌, ◌++◌, Option, none, some,
  if◌then◌else◌, ltb, length, Bytes, codes, beq,
}
use libupnpp.Prelude.Int.{ℤ, pos, negsuc}
use libupnpp.Playlist.{TpState}

pub data ScState : Type 0 where
  scrs_gen_error scrs_no_oh scrs_not_receiver scrs_stopped scrs_playing : ScState

pub data Reason : Type 0 where
  not_renderer no_product index_failed sources_failed no_receiver bad_index no_service sender_failed
        no_uri transport_failed no_connection source_not_set play_failed sender_not_set stop_failed
        master_not_playing :
      Reason

-- The OHProduct service: the index, the types of the sources, and the choice of one.
pub record Product (W : Type 0) : Type 0 where
  pub source_index : W → Option ℤ × W
  pub get_sources : W → Option (List Bytes) × W
  pub set_source_index : ℤ → W → Bool × W

-- The OHReceiver service.
pub record Receiver (W : Type 0) : Type 0 where
  pub sender : W → Option (Bytes × Bytes) × W
  pub transport_state : W → Option TpState × W
  pub set_sender : Bytes → Bytes → W → Bool × W
  pub play : W → Bool × W
  pub stop : W → Bool × W

pub record Renderer (W : Type 0) : Type 0 where
  pub friendly_name : Bytes
  pub udn : Bytes
  pub ohpr : Option (Product W)
  pub ohrc : Option (Receiver W)

pub record ReceiverState (W : Type 0) : Type 0 where
  pub state : ScState
  pub receiver_source_index : ℤ
  pub nm : Bytes
  pub udn : Bytes
  pub uri : Bytes
  pub meta : Bytes
  pub reason : Option Reason
  pub prod : Option (Product W)
  pub rcv : Option (Receiver W)

-- The first source of type "Receiver", counted from `i`.
abbrev pub receiver_index : ℕ → List Bytes → Option ℕ
receiver_index i [] = none
receiver_index i (t ∷ ts) = if beq t (codes "Receiver") then some i else receiver_index (i + 1) ts

abbrev pub inside : ℤ → List Bytes → Bool
inside (pos n) sources = ltb n (length sources)
inside (negsuc n) sources = false

module _ {W : Type 0} where
  -- `st.reset()`
  abbrev pub fresh : Bytes → ReceiverState W
  fresh nm = record {
    state = ScState.scrs_gen_error;
    receiver_source_index = negsuc 0;
    nm = nm;
    udn = [];
    uri = [];
    meta = [];
    reason = none;
    prod = none;
    rcv = none;
  }

  abbrev pub because : Reason → ReceiverState W → ReceiverState W
  because r st = record st { reason = some r }

  -- At `out`: the handles are kept on request.
  abbrev pub out :
      Bool → Product W → Option (Receiver W) → ReceiverState W × W → ReceiverState W × W
  out true p r (st, w) = (record st { prod = some p; rcv = r }, w)
  out false p r (st, w) = (st, w)

  abbrev pub transport_known : ReceiverState W → Option TpState × W → ReceiverState W × W
  transport_known st (none, w) = (because Reason.transport_failed st, w)
  transport_known st (some TpState.tps_playing, w) = (record st { state = ScState.scrs_playing }, w)
  transport_known st (some TpState.tps_unknown, w) = (record st { state = ScState.scrs_stopped }, w)
  transport_known st (some TpState.tps_buffering, w) =
      (record st { state = ScState.scrs_stopped }, w)
  transport_known st (some TpState.tps_paused, w) = (record st { state = ScState.scrs_stopped }, w)
  transport_known st (some TpState.tps_stopped, w) = (record st { state = ScState.scrs_stopped }, w)

  abbrev pub sender_known :
      Receiver W → ReceiverState W → Option (Bytes × Bytes) × W → ReceiverState W × W
  sender_known r st (none, w) = (because Reason.sender_failed st, w)
  sender_known r st (some ([], meta), w) = (
    record st {
      uri = [];
      meta = meta;
      state = ScState.scrs_not_receiver;
      reason = some Reason.no_uri;
    },
    w,
  )
  sender_known r st (some (c ∷ uri, meta), w) =
      transport_known (record st { uri = c ∷ uri; meta = meta }) (r.transport_state w)

  abbrev pub receiver_known :
      Bool → Product W → Option (Receiver W) → ReceiverState W → W → ReceiverState W × W
  receiver_known live p none st w = out live p none (because Reason.no_service st, w)
  receiver_known live p (some r) st w = out live p (some r) (sender_known r st (r.sender w))

  abbrev pub index_found :
      Bool
      → Product W
      → Option (Receiver W)
      → ℤ
      → List Bytes
      → Option ℕ
      → ReceiverState W
      → W
      → ReceiverState W × W
  index_found live p r current sources none st w =
      (record st { state = ScState.scrs_no_oh; reason = some Reason.no_receiver }, w)
  index_found live p r current sources (some i) st w =
      let st1 : ReceiverState W = record st { receiver_source_index = pos i } in
      if inside current sources
      then receiver_known live p r st1 w
      else (because Reason.bad_index st1, w)

  abbrev pub sources_known :
      Bool
      → Product W
      → Option (Receiver W)
      → ℤ
      → ReceiverState W
      → Option (List Bytes) × W
      → ReceiverState W × W
  sources_known live p r current st (none, w) = (because Reason.sources_failed st, w)
  sources_known live p r current st (some [], w) = (because Reason.sources_failed st, w)
  sources_known live p r current st (some (t ∷ ts), w) =
      index_found live p r current (t ∷ ts) (receiver_index 0 (t ∷ ts)) st w

  abbrev pub index_known :
      Bool → Product W → Option (Receiver W) → ReceiverState W → Option ℤ × W → ReceiverState W × W
  index_known live p r st (none, w) = (because Reason.index_failed st, w)
  index_known live p r st (some current, w) = sources_known live p r current st (p.get_sources w)

  abbrev pub product_known :
      Bool → Option (Product W) → Option (Receiver W) → ReceiverState W → W → ReceiverState W × W
  product_known live none r st w =
      (record st { state = ScState.scrs_no_oh; reason = some Reason.no_product }, w)
  product_known live (some p) r st w = index_known live p r st (p.source_index w)

  abbrev pub renderer_known : Bool → Bytes → Option (Renderer W) × W → ReceiverState W × W
  renderer_known live nm (none, w) = (because Reason.not_renderer (fresh nm), w)
  renderer_known live nm (some d, w) =
      product_known live d.ohpr d.ohrc (record (fresh nm) { nm = d.friendly_name; udn = d.udn }) w

  -- `getReceiverState`; `find` is `getRenderer`.
  unfoldable pub get_receiver_state :
      (Bytes → W → Option (Renderer W) × W) → Bytes → Bool → W → ReceiverState W × W
  get_receiver_state find nm live w = renderer_known live nm (find nm w)
