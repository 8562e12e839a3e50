-- ===== src/Device/Ordered.antt =====
-- A device's map and list of services as one ordered list of services by id, the abstract view of what
-- `addService`, `forgetService` and the event loop promise.
use libupnpp.Prelude.{
  ℕ, ◌+◌, ◌≤◌, Bool, true, false, List, [], ◌∷◌, ◌++◌, ◌≡◌, refl, sym, ap, ◌∙◌, arith, Option, none,
  some, Option-cases, Bool-cases, inl, inr, if◌then◌else◌, Bytes, beq, beq_iff, beq→eq, beq_refl,
  find, assign, erase, find-assign, find-erase, count,
}
use libupnpp.Device.{UpnpService, UpnpDevice, erase_id, list_service, forget_service}
use libupnpp.Device.Loop.{Notify, told, append_sent, poll_ids, poll}
use libupnpp.Device.Services.{IsListed, known, known_le, AllKnown, counted-AllKnown}

other_id : (k j : Bytes) → beq j k ≡ false → beq k j ≡ false
other_id k j e = ground (arith, e, beq_iff j k, beq_iff k j)

module _ {W : Type 0} where
  abbrev pub entry : Bytes → Option (UpnpService W) → List (Bytes × UpnpService W)
  entry id none = []
  entry id (some serv) = (id, serv) ∷ []

  -- The services of the ids, in order.
  abbrev pub entries : List Bytes → List (Bytes × UpnpService W) → List (Bytes × UpnpService W)
  entries [] m = []
  entries (id ∷ ids) m = entry id (find id m) ++ entries ids m

  abbrev pub ordered : UpnpDevice W → List (Bytes × UpnpService W)
  ordered d = entries d.serviceids d.servicemap

  -- The list without the services of an id.
  abbrev pub except : Bytes → List (Bytes × UpnpService W) → List (Bytes × UpnpService W)
  except k [] = []
  except k ((id, serv) ∷ l) = if beq id k then except k l else (id, serv) ∷ except k l

  except-append :
      (k : Bytes) (l l' : List (Bytes × UpnpService W))
      → except k (l ++ l') ≡ except k l ++ except k l'
  except-append k [] l' = refl
  except-append k ((id, serv) ∷ l) l' = elim (Bool-cases (beq id k)) [
    | inl e ↦ rw e (except-append k l l')
    | inr e ↦ rw e (ap (◌∷◌ (id, serv)) (except-append k l l'))
  ]

  except-entry :
      (k id : Bytes) (o : Option (UpnpService W))
      → except k (entry id o) ≡ (if beq id k then [] else entry id o)
  except-entry k id none = elim (Bool-cases (beq id k)) [ inl e ↦ rw e refl | inr e ↦ rw e refl ]
  except-entry k id (some serv) = refl

  except_step :
      (k id : Bytes) (o : Option (UpnpService W)) (l : List (Bytes × UpnpService W)) {b : Bool}
      → beq id k ≡ b
      → (if b then [] else entry id o) ++ except k l ≡ except k (entry id o ++ l)
  except_step k id o l e =
      ap (λ t. t ++ except k l)
        (sym (except-entry k id o ∙ ap (λ c. if c then [] else entry id o) e))
      ∙ sym (except-append k (entry id o) l)

  entries-append :
      (ids js : List Bytes) (m : List (Bytes × UpnpService W))
      → entries (ids ++ js) m ≡ entries ids m ++ entries js m
  entries-append [] js m = refl
  entries-append (id ∷ ids) js m =
      ap (entry id (find id m) ++◌) (entries-append ids js m)
      ∙ sym (libupnpp.Prelude.append_assoc (entry id (find id m)) (entries ids m) (entries js m))

  -- The maps agree on every other id.
  abbrev Agree : Bytes → List (Bytes × UpnpService W) → List (Bytes × UpnpService W) → Type 0
  Agree k m' m = (j : Bytes) → beq j k ≡ false → find j m' ≡ find j m

  entries_without :
      (k : Bytes) (ids : List Bytes) (m' m : List (Bytes × UpnpService W))
      → Agree k m' m
      → count k ids ≡ 0
      → entries ids m' ≡ except k (entries ids m)
  entries_without k [] m' m h c = refl
  entries_without k (id ∷ ids) m' m h c =
      let e : beq id k ≡ false = ground (arith, c) in
      let c' : count k ids ≡ 0 = ground (arith, c) in
      ap (λ o. entry id o ++ entries ids m') (h id e)
      ∙ ap (entry id (find id m) ++◌) (entries_without k ids m' m h c')
      ∙ except_step k id (find id m) (entries ids m) e

  entries-erase_id :
      (k : Bytes) (ids : List Bytes) (m' m : List (Bytes × UpnpService W))
      → Agree k m' m
      → count k ids ≤ 1
      → entries (erase_id k ids) m' ≡ except k (entries ids m)
  unfolding erase_id
  entries-erase_id k [] m' m h c = refl
  entries-erase_id k (id ∷ ids) m' m h c = elim (Bool-cases (beq id k)) [
    | inl e ↦
        ap (λ b. entries (if b then ids else id ∷ erase_id k ids) m') e
        ∙ entries_without k ids m' m h (ground (arith, c, e))
        ∙ except_step k id (find id m) (entries ids m) e
    | inr e ↦
        ap (λ b. entries (if b then ids else id ∷ erase_id k ids) m') e
        ∙ ap (λ o. entry id o ++ entries (erase_id k ids) m') (h id e)
        ∙ ap (entry id (find id m) ++◌) (entries-erase_id k ids m' m h (ground (arith, c, e)))
        ∙ except_step k id (find id m) (entries ids m) e
  ]

  -- What a poll does with a list of services.
  abbrev pub poll_list : Bytes → List (Bytes × UpnpService W) → W → List Notify × W
  poll_list dev [] w = ([], w)
  poll_list dev ((id, serv) ∷ l) w =
      let (sent, w1) = told dev id serv (serv.get_event_data false w) in
      let (more, w2) = poll_list dev l w1 in (sent ++ more, w2)

  poll_ids-poll_list :
      (d : UpnpDevice W) (ids : List Bytes) (w : W)
      → AllKnown d ids
      → poll_ids d ids w ≡ some (poll_list d.device_id (entries ids d.servicemap) w)
  unfolding poll_ids
  poll_ids-poll_list d [] w h = refl
  poll_ids-poll_list d (id ∷ ids) w (h, hs) = elim (Option-cases (find id d.servicemap)) [
    | inl e ↦ absurd (omega (arith, ap known e, h))
    | inr (serv, e) ↦ rw e (
        ap (append_sent (told d.device_id id serv (serv.get_event_data false w)).0)
          (poll_ids-poll_list d ids (told d.device_id id serv (serv.get_event_data false w)).1 hs))
  ]

  -- The map and the list of a device implement one ordered list of services: to add a service moves its
  -- id to the end, with the new service, to forget one takes its id out, and a poll asks the services of
  -- the list one after another.
  pub list_service-forget_service-poll :
      (serv : UpnpService W) (k : Bytes) (d : UpnpDevice W) (w : W)
      → IsListed d
      → (ordered (list_service serv d)
          ≡ except serv.service_id (ordered d) ++ (serv.service_id, serv) ∷ [])
        × (ordered (forget_service k d) ≡ except k (ordered d))
        × (poll d w ≡ some (poll_list d.device_id (ordered d) w))
  unfolding list_service forget_service poll
  list_service-forget_service-poll serv k d w h =
      let id = serv.service_id in
      let m' = assign id serv d.servicemap in
      (
        entries-append (erase_id id d.serviceids) (id ∷ []) m'
            ∙ ap (λ o. entries (erase_id id d.serviceids) m' ++ (entry id o ++ []))
                (find-assign id id serv d.servicemap
                  ∙ ap (λ b. if b then some serv else find id d.servicemap) (beq_refl id))
            ∙ ap (λ l. l ++ (id, serv) ∷ [])
                (entries-erase_id id d.serviceids m' d.servicemap
                  (λ j e.
                    find-assign id j serv d.servicemap
                    ∙ ap (λ b. if b then some serv else find j d.servicemap) (other_id id j e))
                  (omega (arith, h id, known_le (find id d.servicemap)))),
        entries-erase_id k d.serviceids (erase k d.servicemap) d.servicemap
            (λ j e.
              find-erase k j d.servicemap
              ∙ ap (λ b. if b then none else find j d.servicemap) (other_id k j e))
            (omega (arith, h k, known_le (find k d.servicemap))),
        poll_ids-poll_list d d.serviceids w
            (counted-AllKnown d d.serviceids (λ j. omega (arith, h j))),
      )
