-- ===== src/Device/Loop.antt =====
-- The event loop of a device: when it wakes up, and what a poll of the services sends. Times are
-- milliseconds.
use libupnpp.Prelude.{
  ℕ, ◌-◌, Bool, true, false, List, [], ◌∷◌, ◌++◌, Option, none, some, if◌then◌else◌, ltb, Bytes,
  find,
}
use libupnpp.Device.{UpnpService, UpnpDevice}
use libupnpp.Device.Dispatch.{args_lists}

-- How a wait ends, with the time one period after its start, which the code calls `wkuptime`.
pub data Wake : Type 0 where
  early : ℕ → Wake
  normal : ℕ → Wake

pub record LoopState : Type 0 where
  pub didearly : Bool
  pub earlytime : ℕ

abbrev pub loopwait : ℕ
loopwait = 1000

-- The decision after a wait: whether to poll, and the state.
unfoldable pub on_wake : Wake → LoopState → Bool × LoopState
on_wake (early t) s =
    if s.didearly
    then (if ltb (t - s.earlytime) loopwait then (false, s) else (true, record s { earlytime = t }))
    else (true, record { didearly = true; earlytime = t })
on_wake (normal t) s = (true, record s { didearly = false })

-- `UpnpNotify(dvh, deviceId, serviceId, names, values)`
pub record Notify : Type 0 where
  pub device_id : Bytes
  pub service_id : Bytes
  pub vars : List (Bytes × Bytes)

-- `notifyEvent`
unfoldable pub notify_event : Bytes → Bytes → List Bytes → List Bytes → List Notify
notify_event dev id [] values = []
notify_event dev id (n ∷ names) values =
    record { device_id = dev; service_id = id; vars = args_lists (n ∷ names) values } ∷ []

module _ {W : Type 0} where
  -- What is sent for a service that had this to tell.
  abbrev pub told :
      Bytes → Bytes → UpnpService W → (Bool × List Bytes × List Bytes) × W → List Notify × W
  told dev id serv ((false, names, values), w) = ([], w)
  told dev id serv ((true, names, values), w) =
      (if serv.noevents then [] else notify_event dev id names values, w)

  -- `m->servicemap[id]`: a missing key would give a null pointer.
  abbrev pub poll_one : UpnpDevice W → Bytes → Option (UpnpService W) → W → Option (List Notify × W)
  poll_one d id none w = none
  poll_one d id (some serv) w = some (told d.device_id id serv (serv.get_event_data false w))

  abbrev pub append_sent : List Notify → Option (List Notify × W) → Option (List Notify × W)
  append_sent sent none = none
  append_sent sent (some (more, w)) = some (sent ++ more, w)

  -- The loop over the ids, with what is sent.
  abbrev pub poll_next :
      Option (List Notify × W) → (W → Option (List Notify × W)) → Option (List Notify × W)
  poll_next none rest = none
  poll_next (some (sent, w)) rest = append_sent sent (rest w)

  unfoldable pub poll_ids : UpnpDevice W → List Bytes → W → Option (List Notify × W)
  poll_ids d [] w = some ([], w)
  poll_ids d (id ∷ ids) w = poll_next (poll_one d id (find id d.servicemap) w) (poll_ids d ids)

  unfoldable pub poll : UpnpDevice W → W → Option (List Notify × W)
  unfolding poll_ids
  poll d w = poll_ids d d.serviceids w
