-- ===== src/OpenHome/Product.antt =====
-- libupnpp/control/ohproduct.cxx: the sources of a product, its events and its actions.
pub mod Fields
pub mod Sources
use libupnpp.Prelude.{
  Bool, true, false, List, [], ◌∷◌, ◌++◌, Option, none, some, if◌then◌else◌, Bytes, codes, beq,
}
use libupnpp.Prelude.Int.{ℤ, pos}
use libupnpp.Text.Decimal.{i2s, atoi}
use libupnpp.Text.Trim.{trimstring}
use libupnpp.Soap.{SoapIncoming, get_string, get_bool, string_to_bool, val2s_bool}
use libupnpp.Device.Dispatch.{same_int}
use libupnpp.Control.{
  Service, Lib, no_data, plain_call, run_action, run_simple_action, run_simple_get,
}
use libupnpp.Playlist.{send_setter}
use libupnpp.Xml.{Expat, Handlers, is_void, parse}
use libupnpp.OpenHome.{Report, flag_of, told_reports, is_service, on_success}
use libupnpp.OpenHome.Tracks.{back_name}

-- `isOHPrService`
unfoldable pub is_oh_pr_service : Bytes → Bool
unfolding is_service
is_oh_pr_service st = is_service (codes "urn:av-openhome-org:service:Product:1") st

-- `OHProduct::Source`
pub record Source : Type 0 where
  pub name : Bytes
  pub type : Bytes
  pub visible : Bool

abbrev pub new_source : Source
new_source = record { name = []; type = []; visible = false }

-- `OHSourceParser`
pub record SourceParser : Type 0 where
  pub sources : List Source
  pub tsrc : Source

-- `EndElement`
unfoldable pub end_source : Bytes → SourceParser → SourceParser
end_source name p =
    if beq name (codes "Source")
    then record { sources = p.sources ++ p.tsrc ∷ []; tsrc = new_source }
    else p

abbrev pub visible_or : Bool → Option Bool → Bool
visible_or old none = old
visible_or old (some b) = b

abbrev pub set_source : Bytes → Bytes → Source → Source
unfolding string_to_bool
set_source name str src =
    if beq name (codes "Name")
    then record src { name = str }
    else if beq name (codes "Type")
    then record src { type = str }
    else if beq name (codes "Visible")
    then record src { visible = visible_or src.visible (string_to_bool str) }
    else src

-- `CharacterData`, with the name of the innermost element.
unfoldable pub source_text : Bytes → Bytes → SourceParser → SourceParser
unfolding set_source trimstring
source_text name s p =
    if is_void s then p else record p { tsrc = set_source name (trimstring s (codes " \t")) p.tsrc }

unfoldable pub source_handlers : Handlers SourceParser
unfolding end_source source_text
source_handlers = record {
  start_element = λ name atts path p. p;
  end_element = λ name stop path p. end_source name p;
  character_data = λ s path p. (path, source_text (back_name path) s p);
}

-- `parseSourceXML`, which adds to the caller's sources.
unfoldable pub parse_source_xml : Expat → Bytes → List Source → Bool × List Source
unfolding parse source_handlers
parse_source_xml expat sxml sources =
    let r = parse expat source_handlers sxml (record { sources = sources; tsrc = new_source }) in
    (r.0, r.1.sources)

abbrev pub sources_result : ℤ → Bool × List Source → ℤ × List Source
sources_result bad (true, sources) = (pos 0, sources)
sources_result bad (false, sources) = (bad, sources)

abbrev pub sources_of : Expat → ℤ → List Source → Option Bytes → Option (ℤ × List Source)
unfolding parse_source_xml
sources_of expat bad old none = some (bad, old)
sources_of expat bad old (some sxml) = some (sources_result bad (parse_source_xml expat sxml old))

-- `evtCallback`, for one variable.
unfoldable pub product_report : Bytes → Bytes → Option Report
unfolding flag_of atoi
product_report name value =
    if beq name (codes "SourceIndex")
    then some (Report.number (atoi value))
    else if beq name (codes "Standby")
    then some (Report.number (flag_of value))
    else some (Report.words value)

unfoldable pub product_evt_callback : Bool → List (Bytes × Bytes) → Option (List (Bytes × Report))
unfolding told_reports product_report
product_evt_callback reporter props = told_reports product_report reporter props

module _ {W : Type 0} where
  unfoldable pub get_sources :
      Expat → Lib W → Service → List Source → W → Option ((ℤ × List Source) × W)
  unfolding on_success run_action sources_of
  get_sources expat lib s old w =
      on_success lib old
        (λ dat. sources_of expat lib.codes.bad_response old (get_string (codes "Value") dat))
        (run_action lib s (plain_call s (codes "SourceXml")) no_data none w)

  abbrev pub index_of : Option ((ℤ × Option Bytes) × W) → Option ((ℤ × Option ℤ) × W)
  unfolding atoi
  index_of none = none
  index_of (some ((ret, none), w)) = some ((ret, none), w)
  index_of (some ((ret, some value), w)) =
      if same_int ret (pos 0) then some ((pos 0, some (atoi value)), w) else some ((ret, none), w)

  -- `sourceIndex`
  unfoldable pub source_index : Lib W → Service → W → Option ((ℤ × Option ℤ) × W)
  unfolding run_simple_get index_of
  source_index lib s w =
      index_of (run_simple_get lib s (codes "SourceIndex") (get_string (codes "Value")) none w)

  unfoldable pub set_source_index : Lib W → Service → ℤ → W → Option ((ℤ × SoapIncoming) × W)
  set_source_index lib s index w = send_setter lib s (codes "SetSourceIndex") (i2s index) w

  unfoldable pub set_source_index_by_name :
      Lib W → Service → Bytes → W → Option ((ℤ × SoapIncoming) × W)
  unfolding run_simple_action
  set_source_index_by_name lib s name w =
      run_simple_action lib s (codes "SetSourceIndexByName") (codes "Value") name none w

  unfoldable pub standby : Lib W → Service → W → Option ((ℤ × Option Bool) × W)
  unfolding run_simple_get
  standby lib s w = run_simple_get lib s (codes "Standby") (get_bool (codes "Value")) none w

  -- `setStanby`
  unfoldable pub set_stanby : Lib W → Service → Bool → W → Option ((ℤ × SoapIncoming) × W)
  unfolding val2s_bool
  set_stanby lib s value w = send_setter lib s (codes "SetStandby") (val2s_bool value) w
