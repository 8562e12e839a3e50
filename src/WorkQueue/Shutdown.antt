-- ===== src/WorkQueue/Shutdown.antt =====
-- A queue that is shut down, or that a worker has left, neither accepts nor hands out tasks.
use libupnpp.Prelude.{Bool, true, false, List, ◌++◌, ◌≡◌, refl, if◌then◌else◌, ltb, ◌==◌}
use libupnpp.WorkQueue.{
  Queue, Waiting, Outcome, is_ok, put, put_wake, wait_idle, wait_idle_wake, set_terminate_and_wait,
  terminate_loop, terminate_wake, take, take_wake, waitminsz, waitminsz_wake, worker_exit,
  close_shop, start, busy,
}
use libupnpp.WorkQueue.Fifo.{queue_of}
use libupnpp.WorkQueue.System.{client_awake, System, Call, perform, resume, settle, Step}

module _ {ℓ} {T : Type ℓ} where
  abbrev pub Still : Queue T → Queue T → Type ℓ
  Still q p = (p.accepted ≡ q.accepted) × (p.taken ≡ q.taken) × (p.tasks ≡ q.tasks)

  if_Still :
      (q : Queue T) (b : Bool) (x y : Outcome T)
      → (b ≡ true → Still q (queue_of x))
      → (b ≡ false → Still q (queue_of y))
      → Still q (queue_of (if b then x else y))
  if_Still q true x y h k = h refl
  if_Still q false x y h k = k refl

  wait_idle-Still : (q : Queue T) → Still q (queue_of (wait_idle q))
  unfolding wait_idle
  wait_idle-Still q = if_Still q (busy q) _ _ (λ _. (refl, refl, refl)) (λ _. (refl, refl, refl))

  terminate_loop-Still :
      (statuses : List Bool) (q : Queue T) → Still q (queue_of (terminate_loop statuses q))
  unfolding terminate_loop
  terminate_loop-Still statuses q =
      if_Still q (ltb q.workers_exited q.worker_threads) _ _ (λ _. (refl, refl, refl))
        (λ _. (refl, refl, refl))

  perform-Still : (c : Call T) (q : Queue T) → is_ok q ≡ false → Still q (queue_of (perform c q))
  unfolding perform put take waitminsz set_terminate_and_wait worker_exit close_shop start
  perform-Still (Call.puts t f) q h = rw h (refl, refl, refl)
  perform-Still Call.takes q h = rw h (refl, refl, refl)
  perform-Still Call.waits_idle q h = wait_idle-Still q
  perform-Still (Call.waits_min sz) q h = rw h (refl, refl, refl)
  perform-Still (Call.terminates statuses) q h =
      if_Still q (q.worker_threads == 0) _ _ (λ _. (refl, refl, refl))
        (λ _. terminate_loop-Still statuses (record q { ok_flag = false }))
  perform-Still Call.exits q h = (refl, refl, refl)
  perform-Still Call.closes q h = (refl, refl, refl)
  perform-Still (Call.starts n) q h = (refl, refl, refl)

  resume-Still :
      (w : Waiting T) (timeout : Bool) (q : Queue T)
      → is_ok q ≡ false
      → Still q (queue_of (resume w timeout q))
  unfolding resume put_wake take_wake waitminsz_wake terminate_wake wait_idle_wake
  resume-Still (Waiting.in_put t f) timeout q h = rw h (refl, refl, refl)
  resume-Still Waiting.in_wait_idle timeout q h = wait_idle-Still (client_awake q)
  resume-Still (Waiting.in_terminate statuses) timeout q h =
      terminate_loop-Still statuses (client_awake q)
  resume-Still Waiting.in_take timeout q h =
      if_Still q timeout _ _ (λ _. (refl, refl, refl)) (λ _. rw h (refl, refl, refl))
  resume-Still (Waiting.in_waitminsz sz) timeout q h = rw h (refl, refl, refl)

  settle-Still :
      (q : Queue T) (l : List (Waiting T)) (o : Outcome T)
      → Still q (queue_of o)
      → Still q (settle l o).queue
  settle-Still q l (Outcome.done r p) v = v
  settle-Still q l (Outcome.sleeps w p) v = v

  -- On a queue that is not `ok()` (shutting down, left by a worker, or without threads) no step of any
  -- thread accepts a task, hands one out, or changes the queued tasks.
  pub Step-Still : {s t : System T} → Step s t → is_ok s.queue ≡ false → Still s.queue t.queue
  Step-Still {s} (Step.call c e) h =
      rw e (settle-Still s.queue s.asleep (perform c s.queue) (perform-Still c s.queue h))
  Step-Still {s} (Step.wake xs w ys timeout f e) h = rw e (
      settle-Still s.queue (xs ++ ys) (resume w timeout s.queue) (resume-Still w timeout s.queue h))
