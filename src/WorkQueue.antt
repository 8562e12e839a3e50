-- ===== src/WorkQueue.antt =====
-- libupnpp/workqueue.h: `WorkQueue<T>`, a queue of tasks between client and worker threads. Each
-- operation holds the mutex from its start, or from a wake-up, to its return or its next wait on a
-- condition variable; these stretches are the functions below, and a wait is the outcome `sleeps`.
-- Notifications are not recorded, since a wait may also end by itself. The unsigned counters wrap at
-- 2^32. The last three fields are history that the code does not keep: every task accepted, taken,
-- and flushed.
pub mod System
pub mod Counts
pub mod Fifo
pub mod Front
pub mod Shutdown
mod Tests
use libupnpp.Prelude.{
  ℕ, suc, ◌+◌, ◌-◌, ◌%◌, ◌^◌, Bool, true, false, not, List, [], ◌∷◌, ◌++◌, ltb, leb, ◌==◌,
  if◌then◌else◌, ◌&&◌, ◌||◌, length,
}

pub record Queue {ℓ} (T : Type ℓ) : Type ℓ where
  pub high : ℕ
  pub low : ℕ
  pub workers_exited : ℕ
  pub ok_flag : Bool
  pub open_for_business : Bool
  pub worker_threads : ℕ
  pub tasks : List T
  pub clients_waiting : ℕ
  pub workers_waiting : ℕ
  pub tottasks : ℕ
  pub nowake : ℕ
  pub workersleeps : ℕ
  pub clientsleeps : ℕ
  pub accepted : List T
  pub taken : List T
  pub flushed : List T

-- A thread that waits: in `put`, `waitIdle` and `setTerminateAndWait` for the clients' condition, in
-- `take` and `waitminsz` for the workers'.
pub data Waiting {ℓ} (T : Type ℓ) : Type ℓ where
  in_put : T → Bool → Waiting T
  in_wait_idle : Waiting T
  in_terminate : List Bool → Waiting T
  in_take : Waiting T
  in_waitminsz : ℕ → Waiting T

-- What an operation returns. `empty_front` is `front()` of an empty queue, which has no meaning.
pub data Reply {ℓ} (T : Type ℓ) : Type ℓ where
  flag : Bool → Reply T
  task : T → ℕ → Reply T
  timed_out : Reply T
  terminated : Bool → Reply T
  empty_front : Reply T

pub data Outcome {ℓ} (T : Type ℓ) : Type ℓ where
  done : Reply T → Queue T → Outcome T
  sleeps : Waiting T → Queue T → Outcome T

abbrev pub inc : ℕ → ℕ
inc n = (n + 1) % 2 ^ 32

abbrev pub dec : ℕ → ℕ
dec n = (n + 2 ^ 32 - 1) % 2 ^ 32

all_ok : List Bool → Bool
all_ok [] = true
all_ok (b ∷ bs) = b && all_ok bs

module _ {ℓ} {T : Type ℓ} where
  pub is_ok : Queue T → Bool
  is_ok q = q.ok_flag && (q.workers_exited == 0) && not (q.worker_threads == 0)

  -- The end of `put`: the old tasks are flushed on request, the task is added.
  put_end : T → Bool → Queue T → Outcome T
  put_end t flushprevious q = Outcome.done (Reply.flag true) (record q {
    tasks = (if flushprevious then [] else q.tasks) ++ t ∷ [];
    flushed = if flushprevious then q.flushed ++ q.tasks else q.flushed;
    accepted = q.accepted ++ t ∷ [];
    nowake = if ltb 0 q.workers_waiting then q.nowake else inc q.nowake;
  })

  put_loop : T → Bool → Queue T → Outcome T
  unfolding is_ok put_end
  put_loop t flushprevious q =
      if is_ok q && ltb 0 q.high && leb q.high (length q.tasks)
      then Outcome.sleeps (Waiting.in_put t flushprevious)
          (record q { clientsleeps = inc q.clientsleeps; clients_waiting = inc q.clients_waiting })
      else put_end t flushprevious q

  pub put : T → Bool → Queue T → Outcome T
  unfolding is_ok put_loop
  put t flushprevious q =
      if not (is_ok q) || not q.open_for_business
      then Outcome.done (Reply.flag false) q
      else put_loop t flushprevious q

  pub put_wake : T → Bool → Queue T → Outcome T
  unfolding is_ok put_loop
  put_wake t flushprevious q =
      let q' = record q { clients_waiting = dec q.clients_waiting } in
      if not (is_ok q) then Outcome.done (Reply.flag false) q' else put_loop t flushprevious q'

  -- The loop of `waitIdle`, and its test.
  pub busy : Queue T → Bool
  busy q =
      (ltb 0 (length q.tasks) && ltb q.workers_exited q.worker_threads)
      || ltb ((q.workers_waiting + q.workers_exited) % 2 ^ 32) q.worker_threads

  pub wait_idle : Queue T → Outcome T
  unfolding is_ok busy
  wait_idle q =
      if busy q
      then Outcome.sleeps Waiting.in_wait_idle
          (record q { clients_waiting = inc q.clients_waiting })
      else Outcome.done (Reply.flag (is_ok q)) q

  pub wait_idle_wake : Queue T → Outcome T
  unfolding wait_idle
  wait_idle_wake q = wait_idle (record q { clients_waiting = dec q.clients_waiting })

  -- The loop of `setTerminateAndWait`, and what follows it: the joins and the reset.
  terminate_loop : List Bool → Queue T → Outcome T
  unfolding all_ok
  terminate_loop statuses q =
      if ltb q.workers_exited q.worker_threads
      then Outcome.sleeps (Waiting.in_terminate statuses)
          (record q { clients_waiting = inc q.clients_waiting })
      else Outcome.done (Reply.terminated (all_ok statuses)) (record q {
        worker_threads = 0;
        workers_exited = 0;
        clients_waiting = 0;
        workers_waiting = 0;
        tottasks = 0;
        nowake = 0;
        workersleeps = 0;
        clientsleeps = 0;
        ok_flag = true;
      })

  -- The argument is what the joined workers returned.
  pub set_terminate_and_wait : List Bool → Queue T → Outcome T
  unfolding terminate_loop
  set_terminate_and_wait statuses q =
      if q.worker_threads == 0
      then Outcome.done (Reply.flag false) q
      else terminate_loop statuses (record q { ok_flag = false })

  pub terminate_wake : List Bool → Queue T → Outcome T
  unfolding terminate_loop
  terminate_wake statuses q =
      terminate_loop statuses (record q { clients_waiting = dec q.clients_waiting })

  -- The end of `take`, over the tasks.
  take_front : List T → Queue T → Outcome T
  take_front [] q = Outcome.done Reply.empty_front q
  take_front (t ∷ rest) q = Outcome.done (Reply.task t (length (t ∷ rest))) (record q {
    tasks = rest;
    taken = q.taken ++ t ∷ [];
    tottasks = inc q.tottasks;
    nowake = if ltb 0 q.clients_waiting then q.nowake else inc q.nowake;
  })

  take_loop : Queue T → Outcome T
  unfolding is_ok take_front
  take_loop q =
      if is_ok q && ltb (length q.tasks) q.low
      then Outcome.sleeps Waiting.in_take
          (record q { workersleeps = inc q.workersleeps; workers_waiting = inc q.workers_waiting })
      else take_front q.tasks q

  pub take : Queue T → Outcome T
  unfolding is_ok take_loop
  take q = if not (is_ok q) then Outcome.done (Reply.flag false) q else take_loop q

  -- The flag says that a timed wait has run out.
  pub take_wake : Bool → Queue T → Outcome T
  unfolding is_ok take_loop
  take_wake timeout q =
      let q' = record q { workers_waiting = dec q.workers_waiting } in
      if timeout
      then Outcome.done Reply.timed_out q'
      else if not (is_ok q)
      then Outcome.done (Reply.flag false) q'
      else take_loop q'

  waitminsz_loop : ℕ → Queue T → Outcome T
  unfolding is_ok
  waitminsz_loop sz q =
      if is_ok q && ltb (length q.tasks) sz
      then Outcome.sleeps (Waiting.in_waitminsz sz)
          (record q { workersleeps = inc q.workersleeps; workers_waiting = inc q.workers_waiting })
      else Outcome.done (Reply.flag true) q

  pub waitminsz : ℕ → Queue T → Outcome T
  unfolding is_ok waitminsz_loop
  waitminsz sz q = if not (is_ok q) then Outcome.done (Reply.flag false) q else waitminsz_loop sz q

  pub waitminsz_wake : ℕ → Queue T → Outcome T
  unfolding is_ok waitminsz_loop
  waitminsz_wake sz q =
      let q' = record q { workers_waiting = dec q.workers_waiting } in
      if not (is_ok q) then Outcome.done (Reply.flag false) q' else waitminsz_loop sz q'

  pub worker_exit : Queue T → Queue T
  worker_exit q = record q { workers_exited = inc q.workers_exited; ok_flag = false }

  pub close_shop : Queue T → Queue T
  close_shop q = record q { open_for_business = false }

  pub start : ℕ → Queue T → Queue T
  start nworkers q = record q { worker_threads = q.worker_threads + nworkers }

  pub new_queue : ℕ → ℕ → Queue T
  new_queue hi lo = record {
    high = hi;
    low = lo;
    workers_exited = 0;
    ok_flag = true;
    open_for_business = true;
    worker_threads = 0;
    tasks = [];
    clients_waiting = 0;
    workers_waiting = 0;
    tottasks = 0;
    nowake = 0;
    workersleeps = 0;
    clientsleeps = 0;
    accepted = [];
    taken = [];
    flushed = [];
  }
