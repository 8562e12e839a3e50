-- ===== src/Xml/LastChange.antt =====
-- libupnpp/control/avlastchg.cxx: the variables of a LastChange event.
use libupnpp.Prelude.{Bool, List, [], ◌∷◌, ◌++◌, if◌then◌else◌, Bytes, codes, beq, assign}
use libupnpp.Xml.{Expat, Handlers, parse}

-- The loop over the attributes: the value and the channel.
abbrev pub value_and_channel : List (Bytes × Bytes) → Bytes × Bytes → Bytes × Bytes
value_and_channel [] vc = vc
value_and_channel ((k, v) ∷ atts) (value, channel) = value_and_channel atts (
    if beq (codes "val") k
    then (v, channel)
    else if beq (codes "channel") k
    then (value, v)
    else (value, channel))

abbrev pub property_name : Bytes → Bytes → Bytes
property_name name [] = name
property_name name (c ∷ channel) =
    if beq (codes "Master") (c ∷ channel) then name else name ++ codes "-" ++ c ∷ channel

-- `StartElement`
unfoldable pub add_change :
    Bytes → List (Bytes × Bytes) → List (Bytes × Bytes) → List (Bytes × Bytes)
unfolding assign
add_change name atts props =
    let vc = value_and_channel atts ([], []) in
    if beq name (codes "Event") then props else assign (property_name name vc.1) vc.0 props

unfoldable pub change_handlers : Handlers (List (Bytes × Bytes))
unfolding add_change
change_handlers = record {
  start_element = λ name atts path props. add_change name atts props;
  end_element = λ name stop path props. props;
  character_data = λ s path props. (path, props);
}

-- `decodeAVLastChange`
unfoldable pub decode_av_last_change :
    Expat → Bytes → List (Bytes × Bytes) → Bool × List (Bytes × Bytes)
unfolding parse change_handlers
decode_av_last_change expat xml props = parse expat change_handlers xml props
