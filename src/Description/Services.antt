-- ===== src/Description/Services.antt =====
-- libupnpp/control/description.cxx, `ServiceDescriptionParser` and `fetchAndParseDesc`. The fields that
-- nothing sets before the first tag, and those that `clear` leaves, are in the parser that it starts with.
use libupnpp.Prelude.{
  Bool, true, false, List, [], ◌∷◌, ◌++◌, Option, none, some, if◌then◌else◌, Bytes, codes, beq,
  find, assign,
}
use libupnpp.Prelude.Int.{ℤ}
use libupnpp.Soap.{string_to_bool}
use libupnpp.Text.Decimal.{atoi}
use libupnpp.Text.Trim.{trimstring}
use libupnpp.Text.Url.{caturl}
use libupnpp.Xml.{ElPath, Expat, Handlers, parse, collect}
use libupnpp.Didl.{back_attributes, back_data, parent_name}
use libupnpp.Description.{ServiceDesc}

pub record Argument : Type 0 where
  pub name : Bytes
  pub todevice : Bool
  pub related_variable : Bytes

pub record Action : Type 0 where
  pub name : Bytes
  pub arg_list : List Argument

pub record StateVariable : Type 0 where
  pub name : Bytes
  pub send_events : Bool
  pub data_type : Bytes
  pub has_value_range : Bool
  pub minimum : ℤ
  pub maximum : ℤ
  pub step_size : ℤ

pub record ParsedService : Type 0 where
  pub action_list : List (Bytes × Action)
  pub state_table : List (Bytes × StateVariable)

pub record ServiceParser : Type 0 where
  pub parsed : ParsedService
  pub targ : Argument
  pub tact : Action
  pub tvar : StateVariable

-- The three `clear` functions.
abbrev pub clear_argument : Argument
clear_argument = record { name = []; todevice = true; related_variable = [] }

abbrev pub clear_action : Action
clear_action = record { name = []; arg_list = [] }

abbrev pub clear_variable : StateVariable → StateVariable
clear_variable v = record v {
  name = [];
  send_events = false;
  data_type = [];
  has_value_range = false;
}

-- `trimstring` with the default characters.
abbrev pub trimmed : Bytes → Bytes
unfolding trimstring
trimmed s = trimstring s (codes " \t")

abbrev pub bool_or : Bool → Option Bool → Bool
bool_or old none = old
bool_or old (some b) = b

abbrev pub sends : Bool → Option Bytes → Bool
unfolding string_to_bool
sends old none = old
sends old (some t) = bool_or old (string_to_bool t)

-- `StartElement`
unfoldable pub start_service_element : Bytes → ElPath → ServiceParser → ServiceParser
unfolding sends find
start_service_element name path p =
    if beq name (codes "action")
    then record p { tact = clear_action }
    else if beq name (codes "argument")
    then record p { targ = clear_argument }
    else if beq name (codes "stateVariable")
    then record p {
      tvar = record (clear_variable p.tvar) {
        send_events = sends false (find (codes "sendEvents") (back_attributes path));
      };
    }
    else p

abbrev pub set_range : (StateVariable → StateVariable) → ServiceParser → ServiceParser
set_range f p = record p { tvar = f (record p.tvar { has_value_range = true }) }

-- The end of a `name`, by the element around it.
abbrev pub end_name : Bytes → Bytes → ServiceParser → ServiceParser
unfolding trimmed
end_name parent dat p =
    if beq parent (codes "argument")
    then record p { targ = record p.targ { name = trimmed dat } }
    else if beq parent (codes "action")
    then record p { tact = record p.tact { name = trimmed dat } }
    else if beq parent (codes "stateVariable")
    then record p { tvar = record p.tvar { name = trimmed dat } }
    else p

-- The elements of a variable's range.
abbrev pub end_range : Bytes → Bytes → ServiceParser → ServiceParser
unfolding atoi
end_range name dat p =
    if beq name (codes "minimum")
    then set_range (λ v. record v { minimum = atoi dat }) p
    else if beq name (codes "maximum")
    then set_range (λ v. record v { maximum = atoi dat }) p
    else if beq name (codes "step")
    then set_range (λ v. record v { step_size = atoi dat }) p
    else p

abbrev pub end_leaf : Bytes → Bytes → Bytes → ServiceParser → ServiceParser
unfolding trimmed end_name end_range
end_leaf name parent dat p =
    if beq name (codes "direction")
    then record p { targ = record p.targ { todevice = beq dat (codes "in") } }
    else if beq name (codes "dataType")
    then record p { tvar = record p.tvar { data_type = trimmed dat } }
    else if beq name (codes "name")
    then end_name parent dat p
    else if beq name (codes "relatedStateVariable")
    then record p { targ = record p.targ { related_variable = trimmed dat } }
    else end_range name dat p

-- `EndElement`
unfoldable pub end_service_element : Bytes → ElPath → ServiceParser → ServiceParser
unfolding end_leaf assign
end_service_element name path p =
    if beq name (codes "action")
    then record p {
      parsed = record p.parsed { action_list = assign p.tact.name p.tact p.parsed.action_list };
    }
    else if beq name (codes "argument")
    then record p { tact = record p.tact { arg_list = p.tact.arg_list ++ p.targ ∷ [] } }
    else if beq name (codes "stateVariable")
    then record p {
      parsed = record p.parsed { state_table = assign p.tvar.name p.tvar p.parsed.state_table };
    }
    else end_leaf name (parent_name path) (back_data path) p

unfoldable pub service_handlers : Handlers ServiceParser
unfolding start_service_element end_service_element
service_handlers = record {
  start_element = λ name atts path p. start_service_element name path p;
  end_element = λ name stop path p. end_service_element name path p;
  character_data = collect;
}

abbrev pub parsed_text : Expat → ServiceParser → Option Bytes → Bool × ParsedService
unfolding parse service_handlers
parsed_text expat p none = (false, p.parsed)
parsed_text expat p (some text) = let r = parse expat service_handlers text p in (r.0, r.1.parsed)

-- `fetchAndParseDesc`: libupnp's download gives the text, or none with an error. `none` is an URL that is
-- not joined.
unfoldable pub fetch_and_parse_desc :
    (Bytes → Option Bytes)
    → Expat
    → ServiceDesc
    → Bytes
    → ServiceParser
    → Option (Bool × ParsedService)
unfolding parsed_text caturl
fetch_and_parse_desc download expat s urlbase p = elim (caturl urlbase s.scpd_url) [
  | none ↦ none
  | some url ↦ some (parsed_text expat p (download url))
]
