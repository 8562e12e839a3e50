-- ===== src/Songcast/Loops.antt =====
-- libupnpp/control/linnsongcast.cxx: the loops over receivers that are set up from a master, stopped or
-- set playing, and the choice of a source. The reasons come back in a list with one for each receiver.
use libupnpp.Prelude.{
  Bool, true, false, List, [], ◌∷◌, ◌≡◌, refl, ap, suc, Option, none, some, if◌then◌else◌, Bytes,
  length,
}
use libupnpp.Prelude.Int.{ℤ}
use libupnpp.Device.Dispatch.{same_int}
use libupnpp.Songcast.{
  ScState, Reason, Product, Renderer, ReceiverState, inside, get_receiver_state,
}
use libupnpp.Songcast.Playing.{
  connected, select_and_play, set_receiver_playing, stop_receiver, after_playing,
}

-- `getRenderer`
abbrev pub Find : Type 0 → Type 0
Find W = Bytes → W → Option (Renderer W) × W

abbrev pub blank : List Bytes → List (Option Reason)
blank [] = []
blank (nm ∷ nms) = none ∷ blank nms

-- The first reason is that of the master.
abbrev pub no_master : List Bytes → List (Option Reason)
no_master [] = []
no_master (nm ∷ nms) = some Reason.master_not_playing ∷ blank nms

abbrev pub is_listed : ScState → Bool
is_listed ScState.scrs_gen_error = false
is_listed ScState.scrs_no_oh = false
is_listed ScState.scrs_not_receiver = true
is_listed ScState.scrs_playing = true
is_listed ScState.scrs_stopped = true

module _ {W : Type 0} where
  -- `setReceiverPlaying` without an address.
  unfoldable pub resume_receiver : Find W → ReceiverState W → W → Bool × ReceiverState W × W
  resume_receiver find = connected find select_and_play

  -- The switch of `setReceiversFromReceiverWithStatus`: a receiver that is one already is left alone.
  unfoldable pub follow : Find W → Bytes → Bytes → ScState → ReceiverState W → W → Option Reason × W
  unfolding set_receiver_playing
  follow find uri meta ScState.scrs_gen_error st w = (st.reason, w)
  follow find uri meta ScState.scrs_no_oh st w = (st.reason, w)
  follow find uri meta ScState.scrs_stopped st w = (none, w)
  follow find uri meta ScState.scrs_playing st w = (none, w)
  follow find uri meta ScState.scrs_not_receiver st w =
      after_playing (set_receiver_playing find uri meta st w)

  -- The switch of `stopReceiversWithStatus`.
  unfoldable pub leave : Find W → ScState → ReceiverState W → W → Option Reason × W
  unfolding stop_receiver
  leave find ScState.scrs_gen_error st w = (st.reason, w)
  leave find ScState.scrs_no_oh st w = (st.reason, w)
  leave find ScState.scrs_not_receiver st w = (none, w)
  leave find ScState.scrs_stopped st w = after_playing (stop_receiver find st w)
  leave find ScState.scrs_playing st w = after_playing (stop_receiver find st w)

  -- The switch of `setReceiversPlayingWithStatus`.
  unfoldable pub resume_one : Find W → ScState → ReceiverState W → W → Option Reason × W
  unfolding resume_receiver
  resume_one find ScState.scrs_gen_error st w = (st.reason, w)
  resume_one find ScState.scrs_no_oh st w = (st.reason, w)
  resume_one find ScState.scrs_stopped st w = after_playing (resume_receiver find st w)
  resume_one find ScState.scrs_playing st w = after_playing (resume_receiver find st w)
  resume_one find ScState.scrs_not_receiver st w = after_playing (resume_receiver find st w)

  -- A loop over receivers with one of the switches.
  unfoldable pub each :
      Find W
      → (ScState → ReceiverState W → W → Option Reason × W)
      → List Bytes
      → W
      → List (Option Reason) × W
  each find switch [] w = ([], w)
  each find switch (nm ∷ nms) w =
      let (st, w1) = get_receiver_state find nm true w in
      let (reason, w2) = switch st.state st w1 in
      let (reasons, w3) = each find switch nms w2 in (reason ∷ reasons, w3)

  unfoldable pub stop_receivers : Find W → List Bytes → W → List (Option Reason) × W
  unfolding each leave
  stop_receivers find nms w = each find (leave find) nms w

  unfoldable pub set_receivers_playing : Find W → List Bytes → W → List (Option Reason) × W
  unfolding each resume_one
  set_receivers_playing find nms w = each find (resume_one find) nms w

  abbrev pub with_ok : List (Option Reason) × W → Bool × List (Option Reason) × W
  with_ok (reasons, w) = (true, reasons, w)

  abbrev pub from_master :
      Find W → List Bytes → ScState → ReceiverState W → W → Bool × List (Option Reason) × W
  from_master find slaves ScState.scrs_playing m w =
      with_ok (each find (follow find m.uri m.meta) slaves w)
  from_master find slaves ScState.scrs_gen_error m w = (false, no_master slaves, w)
  from_master find slaves ScState.scrs_no_oh m w = (false, no_master slaves, w)
  from_master find slaves ScState.scrs_not_receiver m w = (false, no_master slaves, w)
  from_master find slaves ScState.scrs_stopped m w = (false, no_master slaves, w)

  -- `setReceiversFromReceiverWithStatus`; without slaves the caller's reasons stay.
  unfoldable pub set_receivers_from_receiver :
      Find W → Bytes → List Bytes → List (Option Reason) → W → Bool × List (Option Reason) × W
  unfolding each follow get_receiver_state
  set_receivers_from_receiver find master [] reasons w = (true, reasons, w)
  set_receivers_from_receiver find master (nm ∷ nms) reasons w =
      let (m, w1) = get_receiver_state find master true w in
      from_master find (nm ∷ nms) m.state m w1

  -- `setSourceIndex`, step by step.
  abbrev pub index_chosen : Product W → ℤ → List Bytes → Option ℤ × W → Bool × W
  index_chosen p index sources (none, w) = (false, w)
  index_chosen p index sources (some current, w) =
      if inside current sources
      then (if same_int index current then (true, w) else p.set_source_index index w)
      else (false, w)

  abbrev pub index_checked : Product W → ℤ → Option (List Bytes) × W → Bool × W
  index_checked p index (none, w) = (false, w)
  index_checked p index (some [], w) = (false, w)
  index_checked p index (some (t ∷ ts), w) =
      if inside index (t ∷ ts) then index_chosen p index (t ∷ ts) (p.source_index w) else (false, w)

  abbrev pub product_of : Option (Renderer W) × W → Option (Product W) × W
  product_of (none, w) = (none, w)
  product_of (some d, w) = (d.ohpr, w)

  abbrev pub choose : ℤ → Option (Product W) × W → Bool × W
  choose index (none, w) = (false, w)
  choose index (some p, w) = index_checked p index (p.get_sources w)

  unfoldable pub set_source_index : Find W → Bytes → ℤ → W → Bool × W
  set_source_index find nm index w = choose index (product_of (find nm w))

  abbrev pub choose_named :
      (Product W → Bytes → W → Bool × W) → Bytes → Option (Product W) × W → Bool × W
  choose_named by_name name (none, w) = (false, w)
  choose_named by_name name (some p, w) = by_name p name w

  -- `setSourceIndexByName`; the action of the product is an argument.
  unfoldable pub set_source_index_by_name :
      Find W → (Product W → Bytes → W → Bool × W) → Bytes → Bytes → W → Bool × W
  set_source_index_by_name find by_name nm name w =
      choose_named by_name name (product_of (find nm w))

  -- `listReceivers`, over the renderers' identifiers, none if they were not found.
  unfoldable pub list_receivers : Find W → List Bytes → W → List (ReceiverState W) × W
  unfolding get_receiver_state
  list_receivers find [] w = ([], w)
  list_receivers find (udn ∷ udns) w =
      let (st, w1) = get_receiver_state find udn false w in
      let (rest, w2) = list_receivers find udns w1 in
      (if is_listed st.state then st ∷ rest else rest, w2)

  -- Every loop answers for each receiver, after failures too.
  pub length-each :
      (find : Find W) (switch : ScState → ReceiverState W → W → Option Reason × W)
      (nms : List Bytes) (w : W)
      → length (each find switch nms w).0 ≡ length nms
  unfolding each
  length-each find switch [] w = refl
  length-each find switch (nm ∷ nms) w =
      let (st, w1) = get_receiver_state find nm true w in
      ap suc (length-each find switch nms (switch st.state st w1).1)
