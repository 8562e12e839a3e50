-- ===== src/WorkQueue/System.antt =====
-- The queue with the threads that wait in it: any thread may call any operation at any time, and any
-- waiting thread may wake up at any time.
use libupnpp.Prelude.{ℕ, Bool, true, List, ◌∷◌, ◌++◌, ◌≡◌}
use libupnpp.WorkQueue.{
  Queue, Waiting, Reply, Outcome, put, put_wake, wait_idle, wait_idle_wake, set_terminate_and_wait,
  terminate_wake, take, take_wake, waitminsz, waitminsz_wake, worker_exit, close_shop, start, dec,
}

pub record System {ℓ} (T : Type ℓ) : Type ℓ where
  pub queue : Queue T
  pub asleep : List (Waiting T)

pub data Call {ℓ} (T : Type ℓ) : Type ℓ where
  puts : T → Bool → Call T
  takes : Call T
  waits_idle : Call T
  waits_min : ℕ → Call T
  terminates : List Bool → Call T
  exits : Call T
  closes : Call T
  starts : ℕ → Call T

module _ {ℓ} {T : Type ℓ} where
  -- The queue after a sleeper has taken itself off its counter.
  abbrev pub client_awake : Queue T → Queue T
  client_awake q = record q { clients_waiting = dec q.clients_waiting }

  abbrev pub worker_awake : Queue T → Queue T
  worker_awake q = record q { workers_waiting = dec q.workers_waiting }

  unfoldable pub perform : Call T → Queue T → Outcome T
  perform (Call.puts t flushprevious) q = put t flushprevious q
  perform Call.takes q = take q
  perform Call.waits_idle q = wait_idle q
  perform (Call.waits_min sz) q = waitminsz sz q
  perform (Call.terminates statuses) q = set_terminate_and_wait statuses q
  perform Call.exits q = Outcome.done (Reply.flag true) (worker_exit q)
  perform Call.closes q = Outcome.done (Reply.flag true) (close_shop q)
  perform (Call.starts n) q = Outcome.done (Reply.flag true) (start n q)

  -- The flag is for a timed wait.
  unfoldable pub resume : Waiting T → Bool → Queue T → Outcome T
  resume (Waiting.in_put t flushprevious) timeout q = put_wake t flushprevious q
  resume Waiting.in_wait_idle timeout q = wait_idle_wake q
  resume (Waiting.in_terminate statuses) timeout q = terminate_wake statuses q
  resume Waiting.in_take timeout q = take_wake timeout q
  resume (Waiting.in_waitminsz sz) timeout q = waitminsz_wake sz q

  abbrev pub settle : List (Waiting T) → Outcome T → System T
  settle others (Outcome.done r q) = record { queue = q; asleep = others }
  settle others (Outcome.sleeps w q) = record { queue = q; asleep = w ∷ others }

  pub data Step (s t : System T) : Type ℓ where
    call : (c : Call T) → t ≡ settle s.asleep (perform c s.queue) → Step s t
    wake :
        (xs : List (Waiting T)) (w : Waiting T) (ys : List (Waiting T)) (timeout : Bool)
        → s.asleep ≡ xs ++ w ∷ ys
        → t ≡ settle (xs ++ ys) (resume w timeout s.queue)
        → Step s t

  pub data Reach (s : System T) : System T → Type ℓ where
    here : Reach s s
    next : {t u : System T} → Reach s t → Step t u → Reach s u
