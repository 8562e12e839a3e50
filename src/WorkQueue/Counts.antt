-- ===== src/WorkQueue/Counts.antt =====
-- The counters of waiting threads, on which the notifications and `waitIdle` rely.
use libupnpp.Prelude.{
  ℕ, ◌+◌, ◌%◌, ◌^◌, Bool, true, false, not, List, [], ◌∷◌, ◌++◌, ◌≡◌, refl, ap, ◌∙◌, arith, length,
  subst, if◌then◌else◌, ◌&&◌, ◌||◌, ltb, leb, ◌==◌,
}
use libupnpp.WorkQueue.{
  Queue, Waiting, Outcome, is_ok, put, put_end, put_loop, put_wake, wait_idle, wait_idle_wake,
  set_terminate_and_wait, terminate_loop, terminate_wake, take, take_front, take_loop, take_wake,
  waitminsz, waitminsz_loop, waitminsz_wake, worker_exit, close_shop, start, new_queue, busy, dec,
  inc,
}
use libupnpp.WorkQueue.System.{
  client_awake, worker_awake, System, Call, perform, resume, settle, Step,
}

inc_mod : (n m : ℕ) → n ≡ m % 2 ^ 32 → inc n ≡ (1 + m) % 2 ^ 32
inc_mod n m e = omega (arith, e)

dec_mod : (n m : ℕ) → n ≡ (1 + m) % 2 ^ 32 → dec n ≡ m % 2 ^ 32
dec_mod n m e = omega (arith, e)

module _ {ℓ} {T : Type ℓ} where
  abbrev client : Waiting T → Bool
  client (Waiting.in_put t flushprevious) = true
  client Waiting.in_wait_idle = true
  client (Waiting.in_terminate statuses) = true
  client Waiting.in_take = false
  client (Waiting.in_waitminsz sz) = false

  abbrev worker : Waiting T → Bool
  worker (Waiting.in_put t flushprevious) = false
  worker Waiting.in_wait_idle = false
  worker (Waiting.in_terminate statuses) = false
  worker Waiting.in_take = true
  worker (Waiting.in_waitminsz sz) = true

  abbrev pub total : (Waiting T → Bool) → List (Waiting T) → ℕ
  total f [] = 0
  total f (w ∷ ws) = if f w then 1 + total f ws else total f ws

  total-middle :
      (f : Waiting T → Bool) (xs ys : List (Waiting T)) (w : Waiting T)
      → total f (xs ++ w ∷ ys) ≡ total f (w ∷ xs ++ ys)
  total-middle f [] ys w = refl
  total-middle f (x ∷ xs) ys w = ground (arith, total-middle f xs ys w)

  -- The two counters are the numbers of clients and of workers asleep, modulo 2^32.
  abbrev Agree : Queue T → List (Waiting T) → Type 0
  Agree q l =
      (q.clients_waiting ≡ total client l % 2 ^ 32) × (q.workers_waiting ≡ total worker l % 2 ^ 32)

  abbrev pub IsCounted : System T → Type 0
  IsCounted s = Agree s.queue s.asleep

  if_IsCounted :
      (l : List (Waiting T)) (b : Bool) (x y : Outcome T)
      → IsCounted (settle l x)
      → IsCounted (settle l y)
      → IsCounted (settle l (if b then x else y))
  if_IsCounted l true x y h k = h
  if_IsCounted l false x y h k = k

  -- Nobody sleeps while there are no worker threads.
  abbrev pub IsCalm : System T → Type ℓ
  IsCalm s = s.queue.worker_threads ≡ 0 → s.asleep ≡ []

  if_calm :
      (l : List (Waiting T)) (b : Bool) (x y : Outcome T)
      → IsCounted (settle l x)
      → (IsCalm (settle l y) → IsCounted (settle l y))
      → IsCalm (settle l (if b then x else y))
      → IsCounted (settle l (if b then x else y))
  if_calm l true x y h k g = h
  if_calm l false x y h k g = k g

  module _ (l : List (Waiting T)) where
    put_loop-IsCounted :
        (t : T) (flushprevious : Bool) (q : Queue T)
        → Agree q l
        → IsCounted (settle l (put_loop t flushprevious q))
    unfolding put_loop put_end
    put_loop-IsCounted t flushprevious q (c, w) =
        if_IsCounted l (is_ok q && ltb 0 q.high && leb q.high (length q.tasks)) _ _
          (inc_mod _ _ c, w) (c, w)

    take_front-IsCounted :
        (ts : List T) (q : Queue T) → Agree q l → IsCounted (settle l (take_front ts q))
    unfolding take_front
    take_front-IsCounted [] q v = v
    take_front-IsCounted (t ∷ ts) q v = v

    take_loop-IsCounted : (q : Queue T) → Agree q l → IsCounted (settle l (take_loop q))
    unfolding take_loop
    take_loop-IsCounted q (c, w) =
        if_IsCounted l (is_ok q && ltb (length q.tasks) q.low) _ _ (c, inc_mod _ _ w)
          (take_front-IsCounted q.tasks q (c, w))

    wait_idle-IsCounted : (q : Queue T) → Agree q l → IsCounted (settle l (wait_idle q))
    unfolding wait_idle
    wait_idle-IsCounted q (c, w) = if_IsCounted l (busy q) _ _ (inc_mod _ _ c, w) (c, w)

    waitminsz_loop-IsCounted :
        (sz : ℕ) (q : Queue T) → Agree q l → IsCounted (settle l (waitminsz_loop sz q))
    unfolding waitminsz_loop
    waitminsz_loop-IsCounted sz q (c, w) =
        if_IsCounted l (is_ok q && ltb (length q.tasks) sz) _ _ (c, inc_mod _ _ w) (c, w)

    terminate_loop-IsCounted :
        (statuses : List Bool) (q : Queue T)
        → Agree q l
        → IsCalm (settle l (terminate_loop statuses q))
        → IsCounted (settle l (terminate_loop statuses q))
    unfolding terminate_loop
    terminate_loop-IsCounted statuses q (c, w) =
        if_calm l (ltb q.workers_exited q.worker_threads) _ _ (inc_mod _ _ c, w)
          (λ h. rw (h refl) (refl, refl))

    perform-IsCounted :
        (c : Call T) (q : Queue T)
        → Agree q l
        → IsCalm (settle l (perform c q))
        → IsCounted (settle l (perform c q))
    unfolding perform put take waitminsz set_terminate_and_wait worker_exit close_shop start
    perform-IsCounted (Call.puts t flushprevious) q v h =
        if_IsCounted l (not (is_ok q) || not q.open_for_business) _ _ v
          (put_loop-IsCounted t flushprevious q v)
    perform-IsCounted Call.takes q v h =
        if_IsCounted l (not (is_ok q)) _ _ v (take_loop-IsCounted q v)
    perform-IsCounted Call.waits_idle q v h = wait_idle-IsCounted q v
    perform-IsCounted (Call.waits_min sz) q v h =
        if_IsCounted l (not (is_ok q)) _ _ v (waitminsz_loop-IsCounted sz q v)
    perform-IsCounted (Call.terminates statuses) q v h =
        if_calm l (q.worker_threads == 0) _ _ v
          (λ k. terminate_loop-IsCounted statuses (record q { ok_flag = false }) v k) h
    perform-IsCounted Call.exits q v h = v
    perform-IsCounted Call.closes q v h = v
    perform-IsCounted (Call.starts n) q v h = v

    resume-IsCounted :
        (w : Waiting T) (timeout : Bool) (q : Queue T)
        → Agree q (w ∷ l)
        → IsCalm (settle l (resume w timeout q))
        → IsCounted (settle l (resume w timeout q))
    unfolding resume put_wake take_wake waitminsz_wake terminate_wake wait_idle_wake
    resume-IsCounted (Waiting.in_put t flushprevious) timeout q (c, w) h =
        if_IsCounted l (not (is_ok q)) _ _ (dec_mod _ _ c, w)
          (put_loop-IsCounted t flushprevious (client_awake q) (dec_mod _ _ c, w))
    resume-IsCounted Waiting.in_wait_idle timeout q (c, w) h =
        wait_idle-IsCounted (client_awake q) (dec_mod _ _ c, w)
    resume-IsCounted (Waiting.in_terminate statuses) timeout q (c, w) h =
        terminate_loop-IsCounted statuses (client_awake q) (dec_mod _ _ c, w) h
    resume-IsCounted Waiting.in_take timeout q (c, w) h =
        if_IsCounted l timeout _ _ (c, dec_mod _ _ w)
          (if_IsCounted l (not (is_ok q)) _ _ (c, dec_mod _ _ w)
            (take_loop-IsCounted (worker_awake q) (c, dec_mod _ _ w)))
    resume-IsCounted (Waiting.in_waitminsz sz) timeout q (c, w) h =
        if_IsCounted l (not (is_ok q)) _ _ (c, dec_mod _ _ w)
          (waitminsz_loop-IsCounted sz (worker_awake q) (c, dec_mod _ _ w))

  -- Steps through states in which nobody sleeps while there are no worker threads.
  pub data CalmReach (s : System T) : System T → Type ℓ where
    here : CalmReach s s
    next : {t u : System T} → CalmReach s t → Step t u → IsCalm u → CalmReach s u

  Step-IsCounted : {s t : System T} → Step s t → IsCalm t → IsCounted s → IsCounted t
  Step-IsCounted {s} (Step.call c e) h v =
      rw e (perform-IsCounted s.asleep c s.queue v (subst IsCalm e h))
  Step-IsCounted {s} (Step.wake xs w ys timeout f e) h (c, k) = rw e (
      resume-IsCounted (xs ++ ys) w timeout s.queue
        (
          c ∙ ap (λ n. n % 2 ^ 32) (ap (total client) f ∙ total-middle client xs ys w),
          k ∙ ap (λ n. n % 2 ^ 32) (ap (total worker) f ∙ total-middle worker xs ys w),
        )
        (subst IsCalm e h))

  -- When nobody sleeps while there are no worker threads, `m_clients_waiting` and `m_workers_waiting`
  -- are, modulo 2^32, the numbers of clients and of workers that sleep, in every state that the calls
  -- and the wake-ups reach.
  pub CalmReach-IsCounted :
      (hi lo : ℕ) {s : System T}
      → CalmReach (record { queue = new_queue hi lo; asleep = [] }) s
      → IsCounted s
  unfolding new_queue
  CalmReach-IsCounted hi lo CalmReach.here = (refl, refl)
  CalmReach-IsCounted hi lo (CalmReach.next r st h) =
      Step-IsCounted st h (CalmReach-IsCounted hi lo r)
