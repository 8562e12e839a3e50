-- ===== src/Discovery.antt =====
-- libupnpp/control/discovery.cxx: the pool of devices that discovery keeps, with the visitors that the
-- program's client registers. Times are nanoseconds of the steady clock; where the code reads the clock
-- its reading is an argument. A visitor acts on the client's world `W`; `S` is a service's description.
-- The pool's `std::map` is walked in the order of its keys. Parsing a description, and libupnp's answer
-- to a search, are arguments.
pub mod Pool
pub mod Tasks
pub mod Messages
pub mod Downloads
pub mod Visits
pub mod Selector
pub mod Lookup
pub mod Callbacks
mod Tests
use libupnpp.Prelude.{
  ℕ, zero, suc, ◌+◌, ◌-◌, ◌*◌, ◌/◌, ◌%◌, ◌^◌, Bool, true, false, not, List, [], ◌∷◌, ◌++◌, Option,
  none, some, ltb, leb, ◌==◌, if◌then◌else◌, ◌&&◌, ◌||◌, length, Bytes, beq, find, erase,
}
use libupnpp.Prelude.Int.{ℤ, pos, negsuc}

-- The fields of `UPnPDeviceDesc`, and the devices embedded in it.
pub record Desc : Type 0 where
  pub ok : Bool
  pub device_type : Bytes
  pub friendly_name : Bytes
  pub udn : Bytes
  pub desc_url : Bytes
  pub url_base : Bytes
  pub manufacturer : Bytes
  pub model_name : Bytes
  pub xml_text : Bytes

mutual
  pub data Device (S : Type 0) : Type 0 where
    device : Desc → List S → Devices S → Device S

  pub data Devices (S : Type 0) : Type 0 where
    no_more : Devices S
    and_more : Device S → Devices S → Devices S

abbrev pub desc_of : {S : Type 0} → Device S → Desc
desc_of (device d ss es) = d

abbrev pub services : {S : Type 0} → Device S → List S
services (device d ss es) = ss

abbrev pub embedded : {S : Type 0} → Device S → Devices S
embedded (device d ss es) = es

abbrev pub Visitor : Type 0 → Type 0 → Type 0
Visitor S W = Device S → S → W → Bool × W

pub record Descriptor (S : Type 0) : Type 0 where
  pub dev : Device S
  pub last_seen : ℕ
  pub expires : ℤ

pub record Task : Type 0 where
  pub alive : Bool
  pub url : Bytes
  pub description : Bytes
  pub device_id : Bytes
  pub expires : ℤ

-- The statics of the file. `searches` counts the searches that libupnp was asked for.
pub record Directory (S W : Type 0) : Type 0 where
  pub devices : List (Bytes × Descriptor S)
  pub callbacks : List (Visitor S W)
  pub lost_callbacks : List (Visitor S W)
  pub downloading : List Bytes
  pub search_timeout : ℕ
  pub last_search : ℕ
  pub initial_search_done : Bool
  pub searches : ℕ

-- The order of `std::string`.
abbrev pub less : Bytes → Bytes → Bool
less [] [] = false
less [] (y ∷ ys) = true
less (x ∷ xs) [] = false
less (x ∷ xs) (y ∷ ys) = ltb x y || (x == y && less xs ys)

-- `m[k] = v` on the ordered map.
unfoldable pub store : {V : Type 0} → Bytes → V → List (Bytes × V) → List (Bytes × V)
store k v [] = (k, v) ∷ []
store k v ((j, w) ∷ m) =
    let rest = store k v m in
    if beq j k then (k, v) ∷ m else if less k j then (k, v) ∷ (j, w) ∷ m else (j, w) ∷ rest

-- `now - last_seen > expires`
abbrev pub expired : {S : Type 0} → ℕ → Descriptor S → Bool
expired now d = over d.expires
  where
    over : ℤ → Bool
    over (pos e) = ltb (d.last_seen + e * 10 ^ 9) now
    over (negsuc e) = ltb d.last_seen (now + suc e * 10 ^ 9)

-- A loop goes on while the visitor returns true.
abbrev pub go_on : {W : Type 0} → Bool × W → (W → Bool × W) → Bool × W
go_on (false, w) k = (false, w)
go_on (true, w) k = k w

-- `v.erase(v.begin() + i)`
abbrev pub remove : {A : Type 0} → ℕ → List A → List A
remove i [] = []
remove zero (x ∷ xs) = xs
remove (suc i) (x ∷ xs) = x ∷ remove i xs

module _ {S W : Type 0} where
  unfoldable pub visit_services : Visitor S W → Device S → List S → W → Bool × W
  visit_services visit dev [] w = (true, w)
  visit_services visit dev (s ∷ ss) w = go_on (visit dev s w) (visit_services visit dev ss)

  unfoldable pub visit_embedded : Visitor S W → Devices S → W → Bool × W
  visit_embedded visit no_more w = (true, w)
  visit_embedded visit (and_more d ds) w =
      go_on (visit_services visit d (services d) w) (visit_embedded visit ds)

  unfoldable pub simple_visit : Device S → Visitor S W → W → Bool × W
  simple_visit dev visit w =
      go_on (visit_services visit dev (services dev) w) (visit_embedded visit (embedded dev))

  unfoldable pub simple_traverse : Visitor S W → List (Bytes × Descriptor S) → W → Bool × W
  simple_traverse visit [] w = (true, w)
  simple_traverse visit ((k, d) ∷ m) w =
      go_on (simple_visit d.dev visit w) (simple_traverse visit m)

  -- `for (auto& cbp : callbacks) simpleVisit(device, cbp);`
  unfoldable pub call_all : List (Visitor S W) → Device S → W → W
  call_all [] dev w = w
  call_all (cb ∷ cbs) dev w = call_all cbs dev (simple_visit dev cb w).1

  -- `search`. The answer is libupnp's: no library, or whether the search was accepted.
  abbrev searched : Option Bool → ℕ → Directory S W → Bool × Directory S W
  searched none stamp s = (false, s)
  searched (some false) stamp s = (false, s)
  searched (some true) stamp s = (true, record s { last_search = stamp; searches = s.searches + 1 })

  unfoldable pub search : Option Bool → ℕ → ℕ → Directory S W → Bool × Directory S W
  search answer now stamp s =
      if ltb now (s.last_search + s.search_timeout * 10 ^ 9)
      then (true, s)
      else searched answer stamp s

  -- `expireDevices`: the walk, with the lost callbacks, then a new search.
  unfoldable pub expire_walk :
      List (Visitor S W)
      → ℕ
      → List (Bytes × Descriptor S)
      → W
      → (Bool × List (Bytes × Descriptor S)) × W
  expire_walk cbs now [] w = ((false, []), w)
  expire_walk cbs now ((k, d) ∷ m) w =
      let gone = expire_walk cbs now m (call_all cbs d.dev w) in
      let rest = expire_walk cbs now m w in
      if expired now d then ((true, gone.0.1), gone.1) else ((rest.0.0, (k, d) ∷ rest.0.1), rest.1)

  abbrev after_walk :
      Option Bool
      → ℕ
      → ℕ
      → ℕ
      → Directory S W
      → (Bool × List (Bytes × Descriptor S)) × W
      → Directory S W × W
  after_walk answer t1 t2 t3 s ((did, m), w) =
      let t : Directory S W = record s { devices = m } in
      if did || ltb (s.last_search + 5 * 10 ^ 9) t1 then ((search answer t2 t3 t).1, w) else (t, w)

  unfoldable pub expire_devices :
      Option Bool → ℕ → ℕ → ℕ → ℕ → Directory S W → W → Directory S W × W
  expire_devices answer now t1 t2 t3 s w =
      after_walk answer t1 t2 t3 s (expire_walk s.lost_callbacks now s.devices w)

  -- `discoExplorer`, for a task that was taken.
  abbrev say_bye : Bytes → Option (Descriptor S) → Directory S W → W → Directory S W × W
  say_bye k none s w = (s, w)
  say_bye k (some d) s w =
      (record s { devices = erase k s.devices }, call_all s.lost_callbacks d.dev w)

  abbrev say_hello : Bytes → Descriptor S → Directory S W → W → Directory S W × W
  say_hello k d s w =
      if not (desc_of d.dev).ok
      then (s, w)
      else (record s { devices = store k d s.devices }, call_all s.callbacks d.dev w)

  unfoldable pub explore :
      (Bytes → Bytes → Device S) → ℕ → Task → Directory S W → W → Directory S W × W
  explore parse now tsk s w =
      if not tsk.alive
      then say_bye tsk.device_id (find tsk.device_id s.devices) s w
      else say_hello tsk.device_id
          (record { dev = parse tsk.url tsk.description; last_seen = now; expires = tsk.expires }) s
          w

  -- The callbacks. An addition shows the visitor what is in the pool already, and returns the index.
  unfoldable pub add_callback : Visitor S W → Directory S W → W → ℕ × Directory S W × W
  add_callback v s w =
      let t : Directory S W = record s { callbacks = s.callbacks ++ v ∷ [] } in
      ((length t.callbacks - 1) % 2 ^ 32, t, (simple_traverse v s.devices w).1)

  unfoldable pub add_lost_callback : Visitor S W → Directory S W → ℕ × Directory S W
  add_lost_callback v s =
      let t : Directory S W = record s { lost_callbacks = s.lost_callbacks ++ v ∷ [] } in
      ((length t.lost_callbacks - 1) % 2 ^ 32, t)

  unfoldable pub del_callback : ℕ → Directory S W → Directory S W
  del_callback i s =
      if leb (length s.callbacks) i then s else record s { callbacks = remove i s.callbacks }

  unfoldable pub del_lost_callback : ℕ → Directory S W → Directory S W
  del_lost_callback i s =
      if leb (length s.lost_callbacks) i
      then s
      else record s { lost_callbacks = remove i s.lost_callbacks }
