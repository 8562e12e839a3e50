-- ===== src/Library.antt =====
-- libupnpp/upnpplib.cxx: the library's options, its one object, and the handlers to which libupnp's
-- events go. What the constructor makes of the options is an argument.
pub mod Handlers
use libupnpp.Prelude.{
  ℕ, Bool, true, false, List, [], ◌∷◌, ◌&&◌, Option, none, some, if◌then◌else◌, Bytes, codes, find,
  assign, erase,
}
use libupnpp.Prelude.Int.{ℤ, pos, negsuc}

-- `UPnPOptions`
pub record UpnpOptions : Type 0 where
  pub flags : ℕ
  pub ifnames : Bytes
  pub ipv4 : Bytes
  pub port : ℤ
  pub substimeout : ℤ
  pub subsopstimeoutms : ℤ
  pub clientproduct : Bytes
  pub clientversion : Bytes
  pub resanitizedchars : Bytes
  pub bootid : ℤ

unfoldable pub default_options : UpnpOptions
default_options = record {
  flags = 0;
  ifnames = [];
  ipv4 = [];
  port = pos 0;
  substimeout = pos 1800;
  subsopstimeoutms = negsuc 0;
  clientproduct = [];
  clientversion = [];
  resanitizedchars = codes "!$'()+,";
  bootid = negsuc 0;
}

-- The arguments of `init`, without the final one.
pub data InitOption : Type 0 where
  option_ifnames option_ipv4 : Bytes → InitOption
  option_port option_subscription_timeout option_bootid option_subsops_timeoutms : ℤ → InitOption
  option_client_product option_client_version option_resanitized_chars : Bytes → InitOption
  option_unknown : ℕ → InitOption

abbrev pub or_same : Bytes → Bytes → Bytes
or_same old [] = old
or_same old (c ∷ s) = c ∷ s

abbrev pub set_option : UpnpOptions → InitOption → UpnpOptions
set_option o (InitOption.option_ifnames s) = record o { ifnames = s }
set_option o (InitOption.option_ipv4 s) = record o { ipv4 = s }
set_option o (InitOption.option_port n) = record o { port = n }
set_option o (InitOption.option_subscription_timeout n) = record o { substimeout = n }
set_option o (InitOption.option_bootid n) = record o { bootid = n }
set_option o (InitOption.option_subsops_timeoutms n) = record o { subsopstimeoutms = n }
set_option o (InitOption.option_client_product s) = record o { clientproduct = s }
set_option o (InitOption.option_client_version s) = record o { clientversion = s }
set_option o (InitOption.option_resanitized_chars s) = record o {
  resanitizedchars = or_same o.resanitizedchars s;
}
set_option o (InitOption.option_unknown n) = o

abbrev pub set_options : UpnpOptions → List InitOption → UpnpOptions
set_options o [] = o
set_options o (x ∷ xs) = set_options (set_option o x) xs

abbrev pub is_set : Bytes → Bool
is_set [] = false
is_set (c ∷ s) = true

-- The statics `options` and `theLib`; the object's `ok` flag, if there is one.
pub record Statics (W : Type 0) : Type 0 where
  pub options : UpnpOptions
  pub the_lib : Option Bool
  pub world : W

module _ {W : Type 0} where
  abbrev pub made : UpnpOptions → Bool × W → Bool × Statics W
  made o (ok, w) = (true, record { options = o; the_lib = some ok; world = w })

  abbrev pub init_new : (UpnpOptions → W → Bool × W) → UpnpOptions → Statics W → Bool × Statics W
  init_new make o s =
      if is_set o.ipv4 && is_set o.ifnames
      then (false, record s { options = o })
      else made o (make o s.world)

  -- `init`: the options that were given stay, also if they are refused.
  unfoldable pub init :
      (UpnpOptions → W → Bool × W) → ℕ → List InitOption → Statics W → Bool × Statics W
  init make flags opts s = elim s.the_lib [
    | some ok ↦ (false, s)
    | none ↦ init_new make (set_options (record s.options { flags = flags }) opts) s
  ]

  -- An object that is not ok is deleted.
  abbrev pub drop_bad : Statics W → Statics W
  drop_bad s = elim s.the_lib [
    | none ↦ s
    | some true ↦ s
    | some false ↦ record s { the_lib = none }
  ]

  -- `getLibUPnP`, without the hardware address.
  unfoldable pub get_lib_upnp :
      (UpnpOptions → W → Bool × W) → ℕ → Bytes → Bytes → ℤ → Statics W → Statics W
  unfolding init
  get_lib_upnp make flags ifname ip port s =
      drop_bad
        (init make flags
          (InitOption.option_ifnames ifname
            ∷ InitOption.option_ipv4 ip
            ∷ InitOption.option_port port
            ∷ [])
          s).1

-- A handler with its cookie.
abbrev pub Handler : Type 0 → Type 0 → Type 0
Handler W E = E → W → ℤ × W

module _ {W E : Type 0} where
  -- A null handler takes the entry away. Types of events are named by texts here.
  unfoldable pub register_handler :
      Bytes → Option (Handler W E) → List (Bytes × Handler W E) → List (Bytes × Handler W E)
  register_handler et none handlers = erase et handlers
  register_handler et (some h) handlers = assign et h handlers

  abbrev pub call_handler : ℤ → Option (Handler W E) → E → W → ℤ × W
  call_handler success none ev w = (success, w)
  call_handler success (some h) ev w = h ev w

  unfoldable pub o_callback : ℤ → Bytes → E → List (Bytes × Handler W E) → W → ℤ × W
  o_callback success et ev handlers w = call_handler success (find et handlers) ev w
