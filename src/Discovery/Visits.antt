-- ===== src/Discovery/Visits.antt =====
-- The order in which a visitor sees the services of the pool.
use libupnpp.Prelude.{Bool, true, false, List, [], ◌∷◌, ◌++◌, ◌≡◌, refl, sym, ap, ◌∙◌, Bytes}
use libupnpp.Discovery.{
  Device, Devices, no_more, and_more, services, embedded, Visitor, Descriptor, go_on,
  visit_services, visit_embedded, simple_visit, simple_traverse,
}

module _ {S : Type 0} where
  -- The pairs of a device and a service of it: the root device's own, then those of the devices embedded
  -- in it, one level down.
  abbrev own_pairs : Device S → List S → List (Device S × S)
  own_pairs d [] = []
  own_pairs d (s ∷ ss) = (d, s) ∷ own_pairs d ss

  abbrev embedded_pairs : Devices S → List (Device S × S)
  embedded_pairs no_more = []
  embedded_pairs (and_more d ds) = own_pairs d (services d) ++ embedded_pairs ds

  abbrev pub pairs : Device S → List (Device S × S)
  pairs d = own_pairs d (services d) ++ embedded_pairs (embedded d)

  abbrev pub all_pairs : List (Bytes × Descriptor S) → List (Device S × S)
  all_pairs [] = []
  all_pairs ((k, d) ∷ m) = pairs d.dev ++ all_pairs m

module _ {W : Type 0} where
  go_on_assoc :
      (r : Bool × W) (f g : W → Bool × W) → go_on (go_on r f) g ≡ go_on r (λ w. go_on (f w) g)
  go_on_assoc (false, w) f g = refl
  go_on_assoc (true, w) f g = refl

  go_on_ap : (r : Bool × W) (f g : W → Bool × W) → ((w : W) → f w ≡ g w) → go_on r f ≡ go_on r g
  go_on_ap (false, w) f g h = refl
  go_on_ap (true, w) f g h = h w

module _ {S W : Type 0} where
  -- A visitor that sees a list of pairs in order, until it returns false.
  pub see : Visitor S W → List (Device S × S) → W → Bool × W
  see visit [] w = (true, w)
  see visit ((d, s) ∷ ps) w = go_on (visit d s w) (see visit ps)

  see-append :
      (visit : Visitor S W) (ps qs : List (Device S × S)) (w : W)
      → see visit (ps ++ qs) w ≡ go_on (see visit ps w) (see visit qs)
  unfolding see
  see-append visit [] qs w = refl
  see-append visit ((d, s) ∷ ps) qs w =
      go_on_ap (visit d s w) _ _ (λ v. see-append visit ps qs v)
      ∙ sym (go_on_assoc (visit d s w) (see visit ps) (see visit qs))

  visit_services-see :
      (visit : Visitor S W) (d : Device S) (ss : List S) (w : W)
      → visit_services visit d ss w ≡ see visit (own_pairs d ss) w
  unfolding see visit_services
  visit_services-see visit d [] w = refl
  visit_services-see visit d (s ∷ ss) w = go_on_ap (visit d s w) _ _ (visit_services-see visit d ss)

  visit_embedded-see :
      (visit : Visitor S W) (ds : Devices S) (w : W)
      → visit_embedded visit ds w ≡ see visit (embedded_pairs ds) w
  unfolding visit_embedded see
  visit_embedded-see visit no_more w = refl
  visit_embedded-see visit (and_more d ds) w =
      ap (λ r. go_on r (visit_embedded visit ds)) (visit_services-see visit d (services d) w)
      ∙ go_on_ap (see visit (own_pairs d (services d)) w) _ _ (visit_embedded-see visit ds)
      ∙ sym (see-append visit (own_pairs d (services d)) (embedded_pairs ds) w)

  simple_visit-see :
      (d : Device S) (visit : Visitor S W) (w : W) → simple_visit d visit w ≡ see visit (pairs d) w
  unfolding simple_visit
  simple_visit-see d visit w =
      ap (λ r. go_on r (visit_embedded visit (embedded d)))
        (visit_services-see visit d (services d) w)
      ∙ go_on_ap (see visit (own_pairs d (services d)) w) _ _
          (visit_embedded-see visit (embedded d))
      ∙ sym (see-append visit (own_pairs d (services d)) (embedded_pairs (embedded d)) w)

  -- A traversal shows the visitor every service of every device of the pool, once, device by device, an
  -- own service before an embedded device's, and stops at the first one on which it returns false.
  pub simple_traverse-see :
      (visit : Visitor S W) (m : List (Bytes × Descriptor S)) (w : W)
      → simple_traverse visit m w ≡ see visit (all_pairs m) w
  unfolding simple_traverse see
  simple_traverse-see visit [] w = refl
  simple_traverse-see visit ((k, d) ∷ m) w =
      ap (λ r. go_on r (simple_traverse visit m)) (simple_visit-see d.dev visit w)
      ∙ go_on_ap (see visit (pairs d.dev) w) _ _ (simple_traverse-see visit m)
      ∙ sym (see-append visit (pairs d.dev) (all_pairs m) w)
