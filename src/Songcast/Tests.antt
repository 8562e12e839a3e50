-- ===== src/Songcast/Tests.antt =====
-- A receiver that plays.
use libupnpp.Prelude.{ℕ, true, [], ◌∷◌, Option, some, Bytes, codes}
use libupnpp.Prelude.Int.{pos}
use libupnpp.Playlist.{TpState}
use libupnpp.Songcast.{Product, Receiver, Renderer, get_receiver_state}
use libupnpp.Songcast.States.{HasUri, get_receiver_state-HasUri}

abbrev product : Product ℕ
product = record {
  source_index = λ w. (some (pos 0), w);
  get_sources = λ w. (some (codes "Playlist" ∷ codes "Receiver" ∷ []), w);
  set_source_index = λ i w. (true, w);
}

abbrev receiver : Receiver ℕ
receiver = record {
  sender = λ w. (some (codes "ohz://1", []), w);
  transport_state = λ w. (some TpState.tps_playing, w);
  set_sender = λ uri meta w. (true, w);
  play = λ w. (true, w);
  stop = λ w. (true, w);
}

abbrev found : Bytes → ℕ → Option (Renderer ℕ) × ℕ
found nm w =
    (some (record { friendly_name = nm; udn = nm; ohpr = some product; ohrc = some receiver }), w)

get_receiver_state-HasUri_example : HasUri (get_receiver_state found (codes "box") true 0).0
get_receiver_state-HasUri_example = get_receiver_state-HasUri found (codes "box") true 0
