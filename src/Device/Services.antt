-- ===== src/Device/Services.antt =====
-- The two views of a device's services, by id and in order, and what a poll of them meets.
use libupnpp.Prelude.{
  ℕ, ◌+◌, ◌-◌, ◌≤◌, Bool, true, false, List, [], ◌∷◌, ◌++◌, ◌≡◌, refl, ap, arith, Option, none,
  some, if◌then◌else◌, Bytes, beq, beq_iff, beq_refl, find, find-assign, find-erase, count,
  count-append, Option-cases, inl, inr,
}
use libupnpp.VirtualDir.{Dirs}
use libupnpp.Device.{
  DevXml, UpnpService, UpnpDevice, Added, erase_id, list_service, own_xml, put_xml, publish_scpd,
  added, add_with_xml, add_service, forget_service, props_of, service_nick,
}
use libupnpp.Device.Loop.{Notify, notify_event, told, append_sent, poll_ids, poll}

count-erase_id :
    (k j : Bytes) (js : List Bytes)
    → count k (erase_id j js) ≡ (if beq j k then count k js - 1 else count k js)
unfolding erase_id
count-erase_id k j [] = ground arith
count-erase_id k j (i ∷ js) =
    ground (arith, beq_iff j k, beq_iff i j, beq_iff i k, count-erase_id k j js)

abbrev pub known {ℓ} : {A : Type ℓ} → Option A → ℕ
known none = 0
known (some a) = 1

module _ {W : Type 0} where
  -- Each service of the map is listed once, and nothing else is.
  abbrev pub IsListed : UpnpDevice W → Type 0
  IsListed d = (k : Bytes) → count k d.serviceids ≡ known (find k d.servicemap)

  known-if :
      (b : Bool) (o p : Option (UpnpService W))
      → known (if b then o else p) ≡ (if b then known o else known p)
  known-if true o p = refl
  known-if false o p = refl

  pub known_le : (o : Option (UpnpService W)) → known o ≤ 1
  known_le none = omega arith
  known_le (some s) = omega arith

  list_service-IsListed :
      (serv : UpnpService W) (d : UpnpDevice W) → IsListed d → IsListed (list_service serv d)
  unfolding list_service
  list_service-IsListed serv d h k =
      let id = serv.service_id in
      rw (find-assign id k serv d.servicemap, known-if (beq id k) (some serv) (find k d.servicemap))
        (ground (
          arith,
          count-append k (erase_id id d.serviceids) (id ∷ []),
          count-erase_id k id d.serviceids,
          h k,
          known_le (find k d.servicemap),
        ))

  forget_service-IsListed :
      (id : Bytes) (d : UpnpDevice W) → IsListed d → IsListed (forget_service id d)
  unfolding forget_service
  forget_service-IsListed id d h k =
      rw (find-erase id k d.servicemap, known-if (beq id k) none (find k d.servicemap))
        (ground (arith, count-erase_id k id d.serviceids, h k, known_le (find k d.servicemap)))

  put_xml-IsListed :
      (x : DevXml) (d : UpnpDevice W) (root : Option (UpnpDevice W))
      → IsListed d
      → IsListed (put_xml x d root).0
  put_xml-IsListed x d none h = h
  put_xml-IsListed x d (some root) h = h

module _ {W H V : Type 0} where
  -- What holds of the device that `addService` leaves, if it comes to an end.
  abbrev pub Leaves : (UpnpDevice W → Type 0) → Option (Added W H V) → Type 0
  Leaves P none = Unit
  Leaves P (some r) = P r.dev

  added-Leaves :
      (P : UpnpDevice W → Type 0) (p : UpnpDevice W × Option (UpnpDevice W)) (o : Option (Dirs H V))
      → P p.0
      → Leaves P (added p o)
  added-Leaves P (d, root) none h = tt
  added-Leaves P (d, root) (some dirs) h = h

  add_with_xml-IsListed :
      (read_lib : Bytes → Option Bytes) (now : ℕ) (serv : UpnpService W) (d : UpnpDevice W)
      (root : Option (UpnpDevice W)) (dirs : Dirs H V) (x : Option DevXml) (nick : Option Bytes)
      → IsListed d
      → Leaves IsListed (add_with_xml read_lib now serv d root dirs x nick)
  add_with_xml-IsListed read_lib now serv d root dirs none nick h = h
  add_with_xml-IsListed read_lib now serv d root dirs (some x) none h = tt
  add_with_xml-IsListed read_lib now serv d root dirs (some x) (some nick) h =
      added-Leaves IsListed (put_xml _ (list_service serv d) root)
        (publish_scpd now d.devsubd nick (read_lib serv.xml_fn) dirs)
        (put_xml-IsListed _ (list_service serv d) root (list_service-IsListed serv d h))

  -- `addService`, on each of its ways out, and `forgetService` keep the map and the ordered list of a
  -- device's services in step: each service of the map is listed once, and nothing else is.
  pub add_service-forget_service-IsListed :
      (read_lib : Bytes → Option Bytes) (now : ℕ) (serv : UpnpService W) (id : Bytes)
      (d : UpnpDevice W) (root : Option (UpnpDevice W)) (dirs : Dirs H V)
      → IsListed d
      → Leaves IsListed (add_service read_lib now serv d root dirs) × IsListed (forget_service id d)
  unfolding add_service
  add_service-forget_service-IsListed read_lib now serv id d root dirs h = (
    add_with_xml-IsListed read_lib now serv d root dirs (props_of read_lib (own_xml d root))
        (service_nick serv.service_type) h,
    forget_service-IsListed id d h,
  )

-- How many notifications are sent for a service.
abbrev pub sent_for : Bytes → List Notify → ℕ
sent_for k [] = 0
sent_for k (n ∷ ns) = (if beq n.service_id k then 1 else 0) + sent_for k ns

sent_for-append :
    (k : Bytes) (ms ns : List Notify) → sent_for k (ms ++ ns) ≡ sent_for k ms + sent_for k ns
sent_for-append k [] ns = omega arith
sent_for-append k (m ∷ ms) ns = omega (arith, sent_for-append k ms ns)

notify_event-sent_for :
    (k dev id : Bytes) (names values : List Bytes)
    → sent_for k (notify_event dev id names values) ≤ (if beq id k then 1 else 0)
unfolding notify_event
notify_event-sent_for k dev id [] values = ground arith
notify_event-sent_for k dev id (n ∷ names) values = ground arith

module _ {W : Type 0} where
  told-sent_for :
      (k dev id : Bytes) (serv : UpnpService W) (r : (Bool × List Bytes × List Bytes) × W)
      → sent_for k (told dev id serv r).0 ≤ (if beq id k then 1 else 0)
  told-sent_for k dev id serv ((false, names, values), w) = ground arith
  told-sent_for k dev id serv ((true, names, values), w) =
      ground (arith, notify_event-sent_for k dev id names values)

  -- The ids that a poll meets all have a service.
  abbrev pub AllKnown : UpnpDevice W → List Bytes → Type 0
  AllKnown d [] = Unit
  AllKnown d (id ∷ ids) = (known (find id d.servicemap) ≡ 1) × AllKnown d ids

  abbrev PollsOk : List Bytes → Option (List Notify × W) → Type 0
  PollsOk ids none = ⊥
  PollsOk ids (some (sent, w)) = (k : Bytes) → sent_for k sent ≤ count k ids

  poll_next-PollsOk :
      (id : Bytes) (ids : List Bytes) (sent : List Notify) (o : Option (List Notify × W))
      → ((k : Bytes) → sent_for k sent ≤ (if beq id k then 1 else 0))
      → PollsOk ids o
      → PollsOk (id ∷ ids) (append_sent sent o)
  poll_next-PollsOk id ids sent none h g = g
  poll_next-PollsOk id ids sent (some (more, w)) h g =
      λ k. omega (arith, h k, g k, sent_for-append k sent more)

  poll_ids-PollsOk :
      (d : UpnpDevice W) (ids : List Bytes) (w : W)
      → AllKnown d ids
      → PollsOk ids (poll_ids d ids w)
  unfolding poll_ids
  poll_ids-PollsOk d [] w h = λ k. omega arith
  poll_ids-PollsOk d (id ∷ ids) w (h, hs) = elim (Option-cases (find id d.servicemap)) [
    | inl e ↦ absurd (omega (arith, ap known e, h))
    | inr (serv, e) ↦ rw e (
        poll_next-PollsOk id ids (told d.device_id id serv (serv.get_event_data false w)).0
          (poll_ids d ids (told d.device_id id serv (serv.get_event_data false w)).1)
          (λ k. told-sent_for k d.device_id id serv (serv.get_event_data false w))
          (poll_ids-PollsOk d ids (told d.device_id id serv (serv.get_event_data false w)).1 hs))
  ]

  pub counted-AllKnown :
      (d : UpnpDevice W) (ids : List Bytes)
      → ((k : Bytes) → count k ids ≤ known (find k d.servicemap))
      → AllKnown d ids
  counted-AllKnown d [] h = tt
  counted-AllKnown d (id ∷ ids) h = (
    ground (arith, h id, beq_refl id, known_le (find id d.servicemap)),
    counted-AllKnown d ids (λ k. omega (arith, h k)),
  )

  abbrev Delivered : UpnpDevice W → Option (List Notify × W) → Type 0
  Delivered d p =
      (sent : List Notify) × (w : W) × (p ≡ some (sent, w))
      × ((k : Bytes) → sent_for k sent ≤ known (find k d.servicemap))

  PollsOk-Delivered :
      (d : UpnpDevice W) (o p : Option (List Notify × W))
      → p ≡ o
      → IsListed d
      → PollsOk d.serviceids o
      → Delivered d p
  PollsOk-Delivered d none p e l h = absurd h
  PollsOk-Delivered d (some (sent, w)) p e l h = (sent, w, e, λ k. omega (arith, h k, l k))

  -- A poll of a device whose two views of its services are in step comes to an end without a null
  -- service, and sends at most one notification for each service of the map and none for any other.
  pub poll-IsListed :
      (d : UpnpDevice W) (w : W)
      → IsListed d
      → (sent : List Notify) × (w' : W) × (poll d w ≡ some (sent, w'))
        × ((k : Bytes) → sent_for k sent ≤ known (find k d.servicemap))
  unfolding poll
  poll-IsListed d w l = PollsOk-Delivered d (poll_ids d d.serviceids w) (poll d w) refl l (
      poll_ids-PollsOk d d.serviceids w (counted-AllKnown d d.serviceids (λ k. omega (arith, l k))))
