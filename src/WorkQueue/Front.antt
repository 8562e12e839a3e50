-- ===== src/WorkQueue/Front.antt =====
-- `take` reads the front of the queue only when there is one.
use libupnpp.Prelude.{
  ℕ, ◌<◌, Bool, true, false, not, List, [], ◌∷◌, ◌++◌, ◌≡◌, refl, ◌∙◌, arith, length, if◌then◌else◌,
  ◌&&◌, ◌||◌, ltb, leb, ◌==◌,
}
use libupnpp.WorkQueue.{
  Queue, Waiting, Reply, Outcome, is_ok, put, put_end, put_loop, put_wake, wait_idle,
  wait_idle_wake, set_terminate_and_wait, terminate_loop, terminate_wake, take, take_front,
  take_loop, take_wake, waitminsz, waitminsz_loop, waitminsz_wake, worker_exit, close_shop, start,
  new_queue, busy,
}
use libupnpp.WorkQueue.Fifo.{not-false}
use libupnpp.WorkQueue.System.{
  client_awake, worker_awake, System, Call, perform, resume, settle, Step, Reach,
}

module _ {ℓ} {T : Type ℓ} where
  abbrev is_empty_front : Reply T → Bool
  is_empty_front Reply.empty_front = true
  is_empty_front _ = false

  abbrev pub reads_empty_front : Outcome T → Bool
  reads_empty_front (Outcome.done r q) = is_empty_front r
  reads_empty_front (Outcome.sleeps w q) = false

  abbrev low_of : Outcome T → ℕ
  low_of (Outcome.done r q) = q.low
  low_of (Outcome.sleeps w q) = q.low

  -- The limit `low` is kept, and no `front()` of an empty queue is read.
  abbrev Fine : ℕ → Outcome T → Type 0
  Fine lo o = (low_of o ≡ lo) × (reads_empty_front o ≡ false)

  if_Fine :
      (lo : ℕ) (b : Bool) (x y : Outcome T)
      → (b ≡ true → Fine lo x)
      → (b ≡ false → Fine lo y)
      → Fine lo (if b then x else y)
  if_Fine lo true x y h k = h refl
  if_Fine lo false x y h k = k refl

  take_front-Fine : (ts : List T) (q : Queue T) → 0 < length ts → Fine q.low (take_front ts q)
  unfolding take_front
  take_front-Fine [] q h = absurd (omega (arith, h))
  take_front-Fine (t ∷ ts) q h = (refl, refl)

  take_loop-Fine : (q : Queue T) → is_ok q ≡ true → 0 < q.low → Fine q.low (take_loop q)
  unfolding take_loop
  take_loop-Fine q o h =
      if_Fine q.low (is_ok q && ltb (length q.tasks) q.low) _ _ (λ _. (refl, refl))
        (λ e. take_front-Fine q.tasks q (ground arith))

  put_loop-Fine : (t : T) (f : Bool) (q : Queue T) → Fine q.low (put_loop t f q)
  unfolding put_loop put_end
  put_loop-Fine t f q =
      if_Fine q.low (is_ok q && ltb 0 q.high && leb q.high (length q.tasks)) _ _ (λ _. (refl, refl))
        (λ _. (refl, refl))

  wait_idle-Fine : (q : Queue T) → Fine q.low (wait_idle q)
  unfolding wait_idle
  wait_idle-Fine q = if_Fine q.low (busy q) _ _ (λ _. (refl, refl)) (λ _. (refl, refl))

  waitminsz_loop-Fine : (sz : ℕ) (q : Queue T) → Fine q.low (waitminsz_loop sz q)
  unfolding waitminsz_loop
  waitminsz_loop-Fine sz q =
      if_Fine q.low (is_ok q && ltb (length q.tasks) sz) _ _ (λ _. (refl, refl)) (λ _. (refl, refl))

  terminate_loop-Fine :
      (statuses : List Bool) (q : Queue T) → Fine q.low (terminate_loop statuses q)
  unfolding terminate_loop
  terminate_loop-Fine statuses q =
      if_Fine q.low (ltb q.workers_exited q.worker_threads) _ _ (λ _. (refl, refl))
        (λ _. (refl, refl))

  perform-Fine : (c : Call T) (q : Queue T) → 0 < q.low → Fine q.low (perform c q)
  unfolding perform put take waitminsz set_terminate_and_wait worker_exit close_shop start
  perform-Fine (Call.puts t f) q h =
      if_Fine q.low (not (is_ok q) || not q.open_for_business) _ _ (λ _. (refl, refl))
        (λ _. put_loop-Fine t f q)
  perform-Fine Call.takes q h =
      if_Fine q.low (not (is_ok q)) _ _ (λ _. (refl, refl))
        (λ e. take_loop-Fine q (not-false _ e) h)
  perform-Fine Call.waits_idle q h = wait_idle-Fine q
  perform-Fine (Call.waits_min sz) q h =
      if_Fine q.low (not (is_ok q)) _ _ (λ _. (refl, refl)) (λ _. waitminsz_loop-Fine sz q)
  perform-Fine (Call.terminates statuses) q h =
      if_Fine q.low (q.worker_threads == 0) _ _ (λ _. (refl, refl))
        (λ _. terminate_loop-Fine statuses (record q { ok_flag = false }))
  perform-Fine Call.exits q h = (refl, refl)
  perform-Fine Call.closes q h = (refl, refl)
  perform-Fine (Call.starts n) q h = (refl, refl)

  resume-Fine :
      (w : Waiting T) (timeout : Bool) (q : Queue T) → 0 < q.low → Fine q.low (resume w timeout q)
  unfolding resume put_wake take_wake waitminsz_wake terminate_wake wait_idle_wake
  resume-Fine (Waiting.in_put t f) timeout q h =
      if_Fine q.low (not (is_ok q)) _ _ (λ _. (refl, refl))
        (λ _. put_loop-Fine t f (client_awake q))
  resume-Fine Waiting.in_wait_idle timeout q h = wait_idle-Fine (client_awake q)
  resume-Fine (Waiting.in_terminate statuses) timeout q h =
      terminate_loop-Fine statuses (client_awake q)
  resume-Fine Waiting.in_take timeout q h =
      if_Fine q.low timeout _ _ (λ _. (refl, refl))
        (λ _.
          if_Fine q.low (not (is_ok q)) _ _ (λ _. (refl, refl))
            (λ e. take_loop-Fine (worker_awake q) (unfold is_ok in (not-false _ e)) h))
  resume-Fine (Waiting.in_waitminsz sz) timeout q h =
      if_Fine q.low (not (is_ok q)) _ _ (λ _. (refl, refl))
        (λ _. waitminsz_loop-Fine sz (worker_awake q))

  settle-low : (l : List (Waiting T)) (o : Outcome T) → (settle l o).queue.low ≡ low_of o
  settle-low l (Outcome.done r q) = refl
  settle-low l (Outcome.sleeps w q) = refl

  Reach-low :
      (hi lo : ℕ) {s : System T}
      → 0 < lo
      → Reach (record { queue = new_queue hi lo; asleep = [] }) s
      → s.queue.low ≡ lo
  unfolding new_queue
  Reach-low hi lo h Reach.here = refl
  Reach-low hi lo h (Reach.next {t} r (Step.call c e)) =
      let before = Reach-low hi lo h r in
      rw e (
        settle-low t.asleep (perform c t.queue) ∙ (perform-Fine c t.queue (rw before h)).0 ∙ before)
  Reach-low hi lo h (Reach.next {t} r (Step.wake xs w ys timeout f e)) =
      let before = Reach-low hi lo h r in
      rw e (
        settle-low (xs ++ ys) (resume w timeout t.queue)
        ∙ (resume-Fine w timeout t.queue (rw before h)).0
        ∙ before)

  -- A queue made with `lo` at least 1 never reads `front()` of an empty queue: whatever the threads have
  -- done, neither a call nor a wake-up does.
  pub Reach-front :
      (hi lo : ℕ) {s : System T}
      → 0 < lo
      → Reach (record { queue = new_queue hi lo; asleep = [] }) s
      → (c : Call T) (w : Waiting T) (timeout : Bool)
      → (reads_empty_front (perform c s.queue) ≡ false)
        × (reads_empty_front (resume w timeout s.queue) ≡ false)
  Reach-front hi lo {s} h r c w timeout =
      let enough : 0 < s.queue.low = rw (Reach-low hi lo h r) h in
      ((perform-Fine c s.queue enough).1, (resume-Fine w timeout s.queue enough).1)
