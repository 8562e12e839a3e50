-- ===== src/Songcast/Playing.antt =====
-- libupnpp/control/linnsongcast.cxx: a receiver is set to play from a sender or stopped, and a list of them is set up.
use libupnpp.Prelude.{Bool, true, false, List, [], ◌∷◌, Option, none, some, Bytes}
use libupnpp.Prelude.Int.{pos}
use libupnpp.Songcast.{
  ScState, Reason, Product, Receiver, Renderer, ReceiverState, because, get_receiver_state,
}

module _ {W : Type 0} where
  -- What follows a call that answers whether it succeeded.
  abbrev pub provided :
      Reason
      → ReceiverState W
      → (W → Bool × ReceiverState W × W)
      → Bool × W
      → Bool × ReceiverState W × W
  provided r st next (true, w) = next w
  provided r st next (false, w) = (false, because r st, w)

  -- The handles, which are looked up again if one of them is missing, and what is done with both.
  abbrev pub with_both :
      Option (Product W)
      → Option (Receiver W)
      → Bool × ReceiverState W × W
      → (Product W → Receiver W → Bool × ReceiverState W × W)
      → Bool × ReceiverState W × W
  with_both (some p) (some r) missing f = f p r
  with_both none r missing f = missing
  with_both (some p) none missing f = missing

  abbrev pub again :
      (Product W → Receiver W → ReceiverState W → W → Bool × ReceiverState W × W)
      → ReceiverState W × W
      → Bool × ReceiverState W × W
  again f (st, w) =
      with_both st.prod st.rcv (false, because Reason.no_connection st, w) (λ p r. f p r st w)

  abbrev pub connected :
      (Bytes → W → Option (Renderer W) × W)
      → (Product W → Receiver W → ReceiverState W → W → Bool × ReceiverState W × W)
      → ReceiverState W
      → W
      → Bool × ReceiverState W × W
  unfolding get_receiver_state
  connected find f st w =
      with_both st.prod st.rcv (again f (get_receiver_state find st.udn true w)) (λ p r. f p r st w)

  abbrev pub select_and_play :
      Product W → Receiver W → ReceiverState W → W → Bool × ReceiverState W × W
  select_and_play p r st w =
      provided Reason.source_not_set st
        (λ w1. provided Reason.play_failed st (λ w2. (true, st, w2)) (r.play w1))
        (p.set_source_index st.receiver_source_index w)

  abbrev pub send_and_play :
      Bytes → Bytes → Product W → Receiver W → ReceiverState W → W → Bool × ReceiverState W × W
  send_and_play uri meta p r st w =
      provided Reason.sender_not_set st (select_and_play p r st) (r.set_sender uri meta w)

  abbrev pub stop_and_leave :
      Product W → Receiver W → ReceiverState W → W → Bool × ReceiverState W × W
  stop_and_leave p r st w =
      provided Reason.stop_failed st
        (λ w1.
          provided Reason.source_not_set st (λ w2. (true, st, w2)) (p.set_source_index (pos 0) w1))
        (r.stop w)

  -- `setReceiverPlaying` with a sender's address.
  unfoldable pub set_receiver_playing :
      (Bytes → W → Option (Renderer W) × W)
      → Bytes
      → Bytes
      → ReceiverState W
      → W
      → Bool × ReceiverState W × W
  set_receiver_playing find uri meta = connected find (send_and_play uri meta)

  unfoldable pub stop_receiver :
      (Bytes → W → Option (Renderer W) × W) → ReceiverState W → W → Bool × ReceiverState W × W
  stop_receiver find = connected find stop_and_leave

  -- The switch in the loop of `setReceiversFromSenderWithStatus`: why a receiver was not set up, if it
  -- was not.
  abbrev pub after_playing : Bool × ReceiverState W × W → Option Reason × W
  after_playing (true, st, w) = (none, w)
  after_playing (false, st, w) = (st.reason, w)

  abbrev pub set_up :
      (Bytes → W → Option (Renderer W) × W)
      → Bytes
      → Bytes
      → ScState
      → ReceiverState W
      → W
      → Option Reason × W
  unfolding set_receiver_playing
  set_up find uri meta ScState.scrs_gen_error st w = (st.reason, w)
  set_up find uri meta ScState.scrs_no_oh st w = (st.reason, w)
  set_up find uri meta ScState.scrs_stopped st w =
      after_playing (set_receiver_playing find uri meta st w)
  set_up find uri meta ScState.scrs_playing st w =
      after_playing (set_receiver_playing find uri meta st w)
  set_up find uri meta ScState.scrs_not_receiver st w =
      after_playing (set_receiver_playing find uri meta st w)

  abbrev pub set_up_one :
      (Bytes → W → Option (Renderer W) × W) → Bytes → Bytes → Bytes → W → Option Reason × W
  unfolding get_receiver_state
  set_up_one find uri meta nm w =
      let (st, w1) = get_receiver_state find nm true w in set_up find uri meta st.state st w1

  -- The loop of `setReceiversFromSenderWithStatus`, once the sender's address is known: a reason per
  -- receiver.
  unfoldable pub set_up_all :
      (Bytes → W → Option (Renderer W) × W)
      → Bytes
      → Bytes
      → List Bytes
      → W
      → List (Option Reason) × W
  set_up_all find uri meta [] w = ([], w)
  set_up_all find uri meta (nm ∷ nms) w =
      let (reason, w1) = set_up_one find uri meta nm w in
      let (reasons, w2) = set_up_all find uri meta nms w1 in (reason ∷ reasons, w2)
