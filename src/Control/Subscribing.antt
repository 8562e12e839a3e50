-- ===== src/Control/Subscribing.antt =====
-- libupnpp/control/service.cxx: the subscription of a service and its events. The callbacks of all
-- services are in one static map, by subscription id.
use libupnpp.Prelude.{
  ℕ, Bool, true, false, List, [], Option, none, some, if◌then◌else◌, Bytes, find, assign, erase,
}
use libupnpp.Prelude.Int.{ℤ}
use libupnpp.Device.Dispatch.{same_int}
use libupnpp.Control.{EvtCbFunc, Lib, Conn, is_empty}

-- What libupnp tells of a subscription.
pub data SubEvent : Type 0 where
  autorenewal_failed : SubEvent
  event_received : List (Bytes × Bytes) → SubEvent
  other_type : SubEvent

module _ {W : Type 0} where
  abbrev pub deliver : SubEvent → Option (EvtCbFunc W) → W → W
  deliver SubEvent.autorenewal_failed (some c) w = c [] w
  deliver (SubEvent.event_received vars) (some c) w = c vars w
  deliver SubEvent.other_type (some c) w = w
  deliver SubEvent.autorenewal_failed none w = w
  deliver (SubEvent.event_received vars) none w = w
  deliver SubEvent.other_type none w = w

  -- `srvCB`, whose result is always success: what it does to the world.
  unfoldable pub srv_cb : SubEvent → Bytes → List (Bytes × EvtCbFunc W) → W → W
  srv_cb ev sid calls w = deliver ev (find sid calls) w

  abbrev pub subscribed : Lib W → Conn W → (ℤ × Bytes) × W → Bool × Conn W
  subscribed lib s ((ret, sid), w) =
      (same_int ret lib.codes.success, record s { serv = record s.serv { sid = sid }; world = w })

  -- `subscribe`
  unfoldable pub subscribe : Lib W → Conn W → Bool × Conn W
  subscribe lib s =
      if lib.present
      then subscribed lib s
          (lib.client.subscribe s.serv.event_url lib.subs_timeout s.serv.sid s.world)
      else (false, s)

  abbrev pub un_subscribed : Lib W → Conn W → ℤ × W → Bool × Conn W
  un_subscribed lib s (ret, w) = (same_int ret lib.codes.success, record s { world = w })

  -- `unSubscribe`
  unfoldable pub un_subscribe : Lib W → Conn W → Bool × Conn W
  un_subscribe lib s =
      if lib.present
      then (if is_empty s.serv.sid
          then (true, s)
          else un_subscribed lib s (lib.client.un_subscribe s.serv.sid s.world))
      else (false, s)

  abbrev pub note_callback : EvtCbFunc W → Bool × Conn W → Bool × Conn W
  note_callback c (false, s) = (false, s)
  note_callback c (true, s) = (true, record s { calls = assign s.serv.sid c s.calls })

  unfoldable pub register_callback : Lib W → EvtCbFunc W → Conn W → Bool × Conn W
  unfolding subscribe
  register_callback lib c s = note_callback c (subscribe lib s)

  abbrev pub forget_sid : Conn W → Conn W
  forget_sid s = record s { calls = erase s.serv.sid s.calls; serv = record s.serv { sid = [] } }

  unfoldable pub unregister_callback : Lib W → Conn W → Conn W
  unfolding un_subscribe
  unregister_callback lib s = if is_empty s.serv.sid then s else forget_sid (un_subscribe lib s).1

  -- `installReporter`: the registration is the one of the derived class, with its callback.
  unfoldable pub install_reporter : Lib W → EvtCbFunc W → Option ℕ → Conn W → Conn W
  unfolding register_callback unregister_callback
  install_reporter lib c none s =
      let t = unregister_callback lib s in record t { serv = record t.serv { reporter = none } }
  install_reporter lib c (some r) s =
      let t = (register_callback lib c s).1 in
      record t { serv = record t.serv { reporter = some r } }

  unfoldable pub subscribe_again : Lib W → Conn W → Option (EvtCbFunc W) → Bool × Conn W
  unfolding register_callback unregister_callback
  subscribe_again lib s none = (false, s)
  subscribe_again lib s (some c) = (true, (register_callback lib c (unregister_callback lib s)).1)

  -- `reSubscribe`, which does not look at the new registration's result.
  unfoldable pub re_subscribe : Lib W → Conn W → Bool × Conn W
  unfolding subscribe_again
  re_subscribe lib s =
      if is_empty s.serv.sid then (false, s) else subscribe_again lib s (find s.serv.sid s.calls)
