-- ===== src/Didl/Tests.antt =====
-- Runs of the DIDL-Lite parser on a small document.
use libupnpp.Prelude.{ℕ, Bool, true, false, List, [], ◌∷◌, ◌≡◌, refl, Bytes, codes}
use libupnpp.Prelude.Int.{ℤ}
use libupnpp.Xml.{Expat}
use libupnpp.Didl.{clear_object, addprop}
use libupnpp.Didl.Getters.{getprop, get_duration_seconds}
use libupnpp.Xml.Written.{Field, Root, document}
use libupnpp.Didl.Entries.{Entry, entry_name, entry_element}

-- A child on a line of its own.
abbrev child : Bytes → List Bytes → Field
child name stretches = record {
  gap = codes "\n " ∷ [];
  name = name;
  atts = [];
  stretches = stretches;
  at = 20;
  stop = 34;
}

abbrev tune : Field
tune = child (codes "dc:title") (codes "Tune " ∷ codes "&" ∷ codes " Co" ∷ [])

abbrev artist : Bytes → Field
artist who = child (codes "upnp:artist") (who ∷ [])

abbrev entry : Bool → Bytes → List Field → ℕ → ℕ → Entry
entry is_item id fields at stop = record {
  is_item = is_item;
  element = record {
    gap = codes "\n" ∷ [];
    atts = (codes "id", id) ∷ [];
    at = at;
    fields = fields;
    last = codes "\n" ∷ [];
    stop = stop;
  };
}

abbrev entries : List Entry
entries =
    entry true (codes "7")
      (tune ∷ artist (codes "A") ∷ artist (codes "B") ∷ child (codes "upnp:album") [] ∷ []) 1 3
    ∷ entry false (codes "8") (tune ∷ []) 5 6
    ∷ []

abbrev didl_root : Root
didl_root = record { name = codes "DIDL-Lite"; atts = []; at = 0; last = codes "\n" ∷ []; stop = 7 }

abbrev expat : Expat
expat = record {
  chunk = λ s. (document entry_name entry_element didl_root entries, true);
  final = λ s. ([], true);
}

abbrev same : Bytes → Bytes
same uri = uri

-- A value that stands in the list already is added again, unless it is the whole of it.
addprop_repeated :
    getprop (codes "n") (
      addprop
        (codes "n")
        (codes "B")
        []
        (addprop (codes "n") (codes "B") [] (addprop (codes "n") (codes "A") [] clear_object)))
    ≡ codes "A, B, B"
unfolding getprop addprop
addprop_repeated = refl

-- An object without resources lasts a second.
no_duration : get_duration_seconds 0 clear_object ≡ ℤ.pos 1
unfolding get_duration_seconds
no_duration = refl
