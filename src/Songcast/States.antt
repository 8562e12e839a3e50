-- ===== src/Songcast/States.antt =====
-- What the state of a receiver says.
use libupnpp.Prelude.{
  ℕ, Bool, true, false, List, [], ◌∷◌, ◌≡◌, ◌≢◌, refl, Option, none, some, if◌then◌else◌, Bytes,
  length, suc, ap,
}
use libupnpp.Prelude.Int.{ℤ, pos}
use libupnpp.Playlist.{TpState}
use libupnpp.Songcast.{
  ScState, Reason, Product, Receiver, Renderer, ReceiverState, fresh, because, out, transport_known,
  sender_known, receiver_known, index_found, sources_known, index_known, product_known,
  renderer_known, get_receiver_state, receiver_index, inside,
}
use libupnpp.Songcast.Playing.{set_up_one, set_up_all}

module _ {W : Type 0} where
  -- In a state that is connected there is an address to play from.
  abbrev pub HasUri : ReceiverState W → Type 0
  HasUri st = elim st.state [
    | ScState.scrs_gen_error ↦ Unit
    | ScState.scrs_no_oh ↦ Unit
    | ScState.scrs_not_receiver ↦ st.uri ≡ []
    | ScState.scrs_stopped ↦ st.uri ≢ []
    | ScState.scrs_playing ↦ st.uri ≢ []
  ]

  out-HasUri :
      (live : Bool) (p : Product W) (r : Option (Receiver W)) (s : ReceiverState W × W)
      → HasUri s.0
      → HasUri (out live p r s).0
  out-HasUri true p r (st, w) h = h
  out-HasUri false p r (st, w) h = h

  failed-HasUri :
      (r : Reason) (st : ReceiverState W)
      → st.state ≡ ScState.scrs_gen_error
      → HasUri (because r st)
  failed-HasUri r st e = simp (e) tt

  transport_known-HasUri :
      (st : ReceiverState W) (s : Option TpState × W)
      → st.state ≡ ScState.scrs_gen_error
      → st.uri ≢ []
      → HasUri (transport_known st s).0
  transport_known-HasUri st (none, w) e h = failed-HasUri Reason.transport_failed st e
  transport_known-HasUri st (some TpState.tps_playing, w) e h = h
  transport_known-HasUri st (some TpState.tps_unknown, w) e h = h
  transport_known-HasUri st (some TpState.tps_buffering, w) e h = h
  transport_known-HasUri st (some TpState.tps_paused, w) e h = h
  transport_known-HasUri st (some TpState.tps_stopped, w) e h = h

  sender_known-HasUri :
      (r : Receiver W) (st : ReceiverState W) (s : Option (Bytes × Bytes) × W)
      → st.state ≡ ScState.scrs_gen_error
      → HasUri (sender_known r st s).0
  sender_known-HasUri r st (none, w) e = failed-HasUri Reason.sender_failed st e
  sender_known-HasUri r st (some ([], meta), w) e = refl
  sender_known-HasUri r st (some (c ∷ uri, meta), w) e =
      transport_known-HasUri (record st { uri = c ∷ uri; meta = meta }) (r.transport_state w) e
        (λ q. cc (q))

  receiver_known-HasUri :
      (live : Bool) (p : Product W) (r : Option (Receiver W)) (st : ReceiverState W) (w : W)
      → st.state ≡ ScState.scrs_gen_error
      → HasUri (receiver_known live p r st w).0
  receiver_known-HasUri live p none st w e =
      out-HasUri live p none (because Reason.no_service st, w)
        (failed-HasUri Reason.no_service st e)
  receiver_known-HasUri live p (some r) st w e =
      out-HasUri live p (some r) (sender_known r st (r.sender w))
        (sender_known-HasUri r st (r.sender w) e)

  either-HasUri :
      (b : Bool) (x y : ReceiverState W × W)
      → HasUri x.0
      → HasUri y.0
      → HasUri (if b then x else y).0
  either-HasUri true x y h k = h
  either-HasUri false x y h k = k

  index_found-HasUri :
      (live : Bool) (p : Product W) (r : Option (Receiver W)) (current : ℤ) (sources : List Bytes)
      (found : Option ℕ) (st : ReceiverState W) (w : W)
      → st.state ≡ ScState.scrs_gen_error
      → HasUri (index_found live p r current sources found st w).0
  index_found-HasUri live p r current sources none st w e = tt
  index_found-HasUri live p r current sources (some i) st w e =
      let st1 : ReceiverState W = record st { receiver_source_index = pos i } in
      either-HasUri (inside current sources) (receiver_known live p r st1 w)
        (because Reason.bad_index st1, w) (receiver_known-HasUri live p r st1 w e)
        (failed-HasUri Reason.bad_index st1 e)

  sources_known-HasUri :
      (live : Bool) (p : Product W) (r : Option (Receiver W)) (current : ℤ) (st : ReceiverState W)
      (s : Option (List Bytes) × W)
      → st.state ≡ ScState.scrs_gen_error
      → HasUri (sources_known live p r current st s).0
  sources_known-HasUri live p r current st (none, w) e = failed-HasUri Reason.sources_failed st e
  sources_known-HasUri live p r current st (some [], w) e = failed-HasUri Reason.sources_failed st e
  sources_known-HasUri live p r current st (some (t ∷ ts), w) e =
      index_found-HasUri live p r current (t ∷ ts) (receiver_index 0 (t ∷ ts)) st w e

  index_known-HasUri :
      (live : Bool) (p : Product W) (r : Option (Receiver W)) (st : ReceiverState W)
      (s : Option ℤ × W)
      → st.state ≡ ScState.scrs_gen_error
      → HasUri (index_known live p r st s).0
  index_known-HasUri live p r st (none, w) e = failed-HasUri Reason.index_failed st e
  index_known-HasUri live p r st (some current, w) e =
      sources_known-HasUri live p r current st (p.get_sources w) e

  product_known-HasUri :
      (live : Bool) (p : Option (Product W)) (r : Option (Receiver W)) (st : ReceiverState W)
      (w : W)
      → st.state ≡ ScState.scrs_gen_error
      → HasUri (product_known live p r st w).0
  product_known-HasUri live none r st w e = tt
  product_known-HasUri live (some p) r st w e = index_known-HasUri live p r st (p.source_index w) e

  renderer_known-HasUri :
      (live : Bool) (nm : Bytes) (s : Option (Renderer W) × W) → HasUri (renderer_known live nm s).0
  renderer_known-HasUri live nm (none, w) = tt
  renderer_known-HasUri live nm (some d, w) =
      product_known-HasUri live d.ohpr d.ohrc
        (record (fresh nm) { nm = d.friendly_name; udn = d.udn }) w refl

  -- Whatever the services of the renderer answer, a receiver that is said to be stopped or playing has
  -- an address to play from, and one that is said not to be in receiver mode has none.
  pub get_receiver_state-HasUri :
      (find : Bytes → W → Option (Renderer W) × W) (nm : Bytes) (live : Bool) (w : W)
      → HasUri (get_receiver_state find nm live w).0
  unfolding get_receiver_state
  get_receiver_state-HasUri find nm live w = renderer_known-HasUri live nm (find nm w)

  -- Each receiver of the list gets its own answer, even after one that failed.
  length-set_up_all :
      (find : Bytes → W → Option (Renderer W) × W) (uri meta : Bytes) (nms : List Bytes) (w : W)
      → length (set_up_all find uri meta nms w).0 ≡ length nms
  unfolding set_up_all
  length-set_up_all find uri meta [] w = refl
  length-set_up_all find uri meta (nm ∷ nms) w =
      ap suc (length-set_up_all find uri meta nms (set_up_one find uri meta nm w).1)
