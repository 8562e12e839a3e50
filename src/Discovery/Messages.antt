-- ===== src/Discovery/Messages.antt =====
-- libupnpp/control/discovery.cxx, `cluCallBack`: the messages that libupnp hands over, in several
-- threads. A call for an arrival is cut where it downloads the description: the running downloads are
-- the calls that are there. What `put` answers and what a download gives are arguments.
use libupnpp.Prelude.{
  Bool, true, false, List, [], ◌∷◌, ◌++◌, ◌≡◌, ◌||◌, Option, none, some, if◌then◌else◌, Bytes, beq,
}
use libupnpp.Prelude.Int.{ℤ}
use libupnpp.Discovery.{Task}

-- `UpnpDiscovery`
pub record UpnpDiscovery : Type 0 where
  pub device_type : Bytes
  pub service_type : Bytes
  pub location : Bytes
  pub device_id : Bytes
  pub expires : ℤ

pub data Message : Type 0 where
  search_result alive bye_bye : UpnpDiscovery → Message
  other_message : Message

-- `o_downloading`, the calls that are downloading, and what was put on the queue.
pub record Traffic : Type 0 where
  pub downloading : List Bytes
  pub running : List Task
  pub queued : List Task

-- The constructor of `DiscoveredTask`.
abbrev pub discovered_task : Bool → UpnpDiscovery → Task
discovered_task is_alive disco = record {
  alive = is_alive;
  url = disco.location;
  description = [];
  device_id = disco.device_id;
  expires = disco.expires;
}

abbrev pub has_text : Bytes → Bool
has_text [] = false
has_text (c ∷ s) = true

-- A set of texts.
abbrev pub member : Bytes → List Bytes → Bool
member k [] = false
member k (j ∷ js) = beq j k || member k js

abbrev pub without : Bytes → List Bytes → List Bytes
without k [] = []
without k (j ∷ js) = if beq j k then without k js else j ∷ without k js

abbrev pub put_task : Bool → Task → Traffic → Traffic
put_task accepted t s = if accepted then record s { queued = s.queued ++ t ∷ [] } else s

abbrev pub begin_download : Task → Traffic → Traffic
begin_download t s =
    if member t.url s.downloading
    then s
    else record s { downloading = s.downloading ++ t.url ∷ []; running = s.running ++ t ∷ [] }

abbrev pub on_arrival : UpnpDiscovery → Traffic → Traffic
on_arrival disco s =
    if has_text disco.device_type || has_text disco.service_type
    then s
    else begin_download (discovered_task true disco) s

-- The call up to its download, or to its end.
unfoldable pub clu_call_back : Bool → Message → Traffic → Traffic
clu_call_back accepted (Message.search_result disco) s = on_arrival disco s
clu_call_back accepted (Message.alive disco) s = on_arrival disco s
clu_call_back accepted (Message.bye_bye disco) s = put_task accepted (discovered_task false disco) s
clu_call_back accepted Message.other_message s = s

abbrev pub put_downloaded : Bool → Task → Option Bytes → Traffic → Traffic
put_downloaded accepted t none s = s
put_downloaded accepted t (some text) s = put_task accepted (record t { description = text }) s

-- The call from its download on; `rest` are the other calls.
unfoldable pub downloaded : Bool → Task → Option Bytes → List Task → Traffic → Traffic
downloaded accepted t text rest s =
    put_downloaded accepted t text
      (record s { downloading = without t.url s.downloading; running = rest })

-- The threads.
pub data Step : Traffic → Traffic → Type 0 where
  starts : (accepted : Bool) (m : Message) (s : Traffic) → Step s (clu_call_back accepted m s)
  ends :
      (accepted : Bool) (text : Option Bytes) (xs ys : List Task) (t : Task) (s : Traffic)
      → s.running ≡ xs ++ t ∷ ys
      → Step s (downloaded accepted t text (xs ++ ys) s)

pub data Reach : Traffic → Type 0 where
  at_start : Reach (record { downloading = []; running = []; queued = [] })
  then_step : (s t : Traffic) → Reach s → Step s t → Reach t
