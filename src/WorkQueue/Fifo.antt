-- ===== src/WorkQueue/Fifo.antt =====
-- Tasks come out in the order in which they went in, none is lost, and the queue keeps its bound.
use libupnpp.Prelude.{
  ℕ, ◌<◌, ◌≤◌, Bool, true, false, not, List, [], ◌∷◌, ◌++◌, ◌≡◌, refl, sym, ap, ◌∙◌, arith, length,
  length-append, append_assoc, append-nil, subst, Bool-cases, inl, inr, if◌then◌else◌, ◌&&◌, ◌||◌,
  ltb, leb, ◌==◌,
}
use libupnpp.WorkQueue.{
  Queue, Waiting, Outcome, is_ok, put, put_end, put_loop, put_wake, wait_idle, wait_idle_wake,
  set_terminate_and_wait, terminate_loop, terminate_wake, take, take_front, take_loop, take_wake,
  waitminsz, waitminsz_loop, waitminsz_wake, worker_exit, close_shop, start, new_queue, busy, dec,
}
use libupnpp.WorkQueue.System.{System, Call, perform, resume, settle, Step, Reach}

pub not-false : (b : Bool) → not b ≡ false → b ≡ true
not-false b h = ground arith

-- The third list is made of the other two, each kept in its order.
pub data Merged {ℓ} (A : Type ℓ) : List A → List A → List A → Type ℓ where
  none_left : Merged A [] [] []
  from_first : {x : A} {xs ys zs : List A} → Merged A xs ys zs → Merged A (x ∷ xs) ys (x ∷ zs)
  from_second : {y : A} {xs ys zs : List A} → Merged A xs ys zs → Merged A xs (y ∷ ys) (y ∷ zs)

module _ {ℓ} {T : Type ℓ} where
  -- The accepted tasks are, in the order in which they were accepted, first those that are gone, then
  -- those that are queued. Of those that are gone each was either taken or flushed, once, and in this
  -- order among the taken and among the flushed. A limit is kept.
  pub record IsFifo (q : Queue T) : Type ℓ where
    pub gone : List T
    pub parted : Merged T q.taken q.flushed gone
    pub fifo : q.accepted ≡ gone ++ q.tasks
    pub bounded : 0 < q.high → length q.tasks ≤ q.high

  abbrev pub queue_of : Outcome T → Queue T
  queue_of (Outcome.done r q) = q
  queue_of (Outcome.sleeps w q) = q

  first_only : (xs : List T) → Merged T xs [] xs
  first_only [] = Merged.none_left
  first_only (x ∷ xs) = Merged.from_first (first_only xs)

  second_only : (ys : List T) → Merged T [] ys ys
  second_only [] = Merged.none_left
  second_only (y ∷ ys) = Merged.from_second (second_only ys)

  Merged-append :
      {xs ys zs xs2 ys2 zs2 : List T}
      → Merged T xs ys zs
      → Merged T xs2 ys2 zs2
      → Merged T (xs ++ xs2) (ys ++ ys2) (zs ++ zs2)
  Merged-append Merged.none_left n = n
  Merged-append (Merged.from_first m) n = Merged.from_first (Merged-append m n)
  Merged-append (Merged.from_second m) n = Merged.from_second (Merged-append m n)

  put_end-IsFifo :
      (t : T) (flushprevious : Bool) (q : Queue T)
      → IsFifo q
      → (0 < q.high → length q.tasks < q.high)
      → IsFifo (queue_of (put_end t flushprevious q))
  unfolding put_end
  put_end-IsFifo t false q v room = record {
    gone = v.gone;
    parted = v.parted;
    fifo = ap (λ l. l ++ t ∷ []) v.fifo ∙ append_assoc v.gone q.tasks (t ∷ []);
    bounded = λ h. omega (arith, room h, length-append q.tasks (t ∷ []));
  }
  put_end-IsFifo t true q v room = record {
    gone = v.gone ++ q.tasks;
    parted =
        subst (λ l. Merged T l (q.flushed ++ q.tasks) (v.gone ++ q.tasks)) (append-nil q.taken)
          (Merged-append v.parted (second_only q.tasks));
    fifo = ap (λ l. l ++ t ∷ []) v.fifo;
    bounded = λ h. omega (arith, h);
  }

  put_loop-IsFifo :
      (t : T) (flushprevious : Bool) (q : Queue T)
      → is_ok q ≡ true
      → IsFifo q
      → IsFifo (queue_of (put_loop t flushprevious q))
  unfolding put_loop
  put_loop-IsFifo t flushprevious q o v =
      elim (Bool-cases (ltb 0 q.high && leb q.high (length q.tasks))) [
        | inl e ↦
            rw (o, e)
              (record { gone = v.gone; parted = v.parted; fifo = v.fifo; bounded = v.bounded })
        | inr e ↦ rw (o, e) (put_end-IsFifo t flushprevious q v (λ h. ground arith))
      ]

  -- Both branches of a test.
  if_IsFifo :
      (b : Bool) (x y : Outcome T)
      → (b ≡ true → IsFifo (queue_of x))
      → (b ≡ false → IsFifo (queue_of y))
      → IsFifo (queue_of (if b then x else y))
  if_IsFifo true x y h k = h refl
  if_IsFifo false x y h k = k refl

  -- The history, the tasks and the limit are all that counts.
  abbrev Same : Queue T → Queue T → Type ℓ
  Same q p =
      (p.accepted ≡ q.accepted)
      × (p.taken ≡ q.taken)
      × (p.flushed ≡ q.flushed)
      × (p.tasks ≡ q.tasks)
      × (p.high ≡ q.high)

  Same-IsFifo : (q p : Queue T) → Same q p → IsFifo q → IsFifo p
  Same-IsFifo q p (a, t, f, k, h) v = record {
    gone = v.gone;
    parted = rw (t, f) v.parted;
    fifo = rw (a, k) v.fifo;
    bounded = λ e. rw (k, h) (v.bounded (subst (λ n. 0 < n) h e));
  }

  take_front-IsFifo :
      (ts : List T) (q : Queue T) → q.tasks ≡ ts → IsFifo q → IsFifo (queue_of (take_front ts q))
  unfolding take_front
  take_front-IsFifo [] q e v = v
  take_front-IsFifo (t ∷ rest) q e v = record {
    gone = v.gone ++ t ∷ [];
    parted =
        subst (λ l. Merged T (q.taken ++ t ∷ []) l (v.gone ++ t ∷ [])) (append-nil q.flushed)
          (Merged-append v.parted (first_only (t ∷ [])));
    fifo = v.fifo ∙ rw e (sym (append_assoc v.gone (t ∷ []) rest));
    bounded = λ h. omega (arith, v.bounded h, ap length e);
  }

  take_loop-IsFifo : (q : Queue T) → IsFifo q → IsFifo (queue_of (take_loop q))
  unfolding take_loop
  take_loop-IsFifo q v =
      if_IsFifo (is_ok q && ltb (length q.tasks) q.low) _ _
        (λ _. Same-IsFifo q _ (refl, refl, refl, refl, refl) v)
        (λ _. take_front-IsFifo q.tasks q refl v)

  wait_idle-IsFifo : (q : Queue T) → IsFifo q → IsFifo (queue_of (wait_idle q))
  unfolding wait_idle
  wait_idle-IsFifo q v =
      if_IsFifo (busy q) _ _ (λ _. Same-IsFifo q _ (refl, refl, refl, refl, refl) v) (λ _. v)

  waitminsz_loop-IsFifo :
      (sz : ℕ) (q : Queue T) → IsFifo q → IsFifo (queue_of (waitminsz_loop sz q))
  unfolding waitminsz_loop
  waitminsz_loop-IsFifo sz q v =
      if_IsFifo (is_ok q && ltb (length q.tasks) sz) _ _
        (λ _. Same-IsFifo q _ (refl, refl, refl, refl, refl) v) (λ _. v)

  terminate_loop-IsFifo :
      (statuses : List Bool) (q : Queue T)
      → IsFifo q
      → IsFifo (queue_of (terminate_loop statuses q))
  unfolding terminate_loop
  terminate_loop-IsFifo statuses q v =
      if_IsFifo (ltb q.workers_exited q.worker_threads) _ _
        (λ _. Same-IsFifo q _ (refl, refl, refl, refl, refl) v)
        (λ _. Same-IsFifo q _ (refl, refl, refl, refl, refl) v)

  perform-IsFifo : (c : Call T) (q : Queue T) → IsFifo q → IsFifo (queue_of (perform c q))
  unfolding perform put take waitminsz set_terminate_and_wait worker_exit close_shop start
  perform-IsFifo (Call.puts t flushprevious) q v =
      if_IsFifo (not (is_ok q) || not q.open_for_business) _ _ (λ _. v)
        (λ e. put_loop-IsFifo t flushprevious q (ground arith) v)
  perform-IsFifo Call.takes q v = if_IsFifo (not (is_ok q)) _ _ (λ _. v) (λ _. take_loop-IsFifo q v)
  perform-IsFifo Call.waits_idle q v = wait_idle-IsFifo q v
  perform-IsFifo (Call.waits_min sz) q v =
      if_IsFifo (not (is_ok q)) _ _ (λ _. v) (λ _. waitminsz_loop-IsFifo sz q v)
  perform-IsFifo (Call.terminates statuses) q v =
      if_IsFifo (q.worker_threads == 0) _ _ (λ _. v)
        (λ _. terminate_loop-IsFifo statuses _ (Same-IsFifo q _ (refl, refl, refl, refl, refl) v))
  perform-IsFifo Call.exits q v = Same-IsFifo q _ (refl, refl, refl, refl, refl) v
  perform-IsFifo Call.closes q v = Same-IsFifo q _ (refl, refl, refl, refl, refl) v
  perform-IsFifo (Call.starts n) q v = Same-IsFifo q _ (refl, refl, refl, refl, refl) v

  resume-IsFifo :
      (w : Waiting T) (timeout : Bool) (q : Queue T)
      → IsFifo q
      → IsFifo (queue_of (resume w timeout q))
  unfolding resume put_wake take_wake waitminsz_wake terminate_wake wait_idle_wake
  resume-IsFifo (Waiting.in_put t flushprevious) timeout q v =
      let woken =
        Same-IsFifo q (record q { clients_waiting = dec q.clients_waiting })
          (refl, refl, refl, refl, refl) v in
      if_IsFifo (not (is_ok q)) _ _ (λ _. woken)
        (λ e. put_loop-IsFifo t flushprevious _ (unfold is_ok in (not-false _ e)) woken)
  resume-IsFifo Waiting.in_wait_idle timeout q v =
      wait_idle-IsFifo _ (Same-IsFifo q _ (refl, refl, refl, refl, refl) v)
  resume-IsFifo (Waiting.in_terminate statuses) timeout q v =
      terminate_loop-IsFifo statuses _ (Same-IsFifo q _ (refl, refl, refl, refl, refl) v)
  resume-IsFifo Waiting.in_take timeout q v =
      let woken =
        Same-IsFifo q (record q { workers_waiting = dec q.workers_waiting })
          (refl, refl, refl, refl, refl) v in
      if_IsFifo timeout _ _ (λ _. woken)
        (λ _. if_IsFifo (not (is_ok q)) _ _ (λ _. woken) (λ _. take_loop-IsFifo _ woken))
  resume-IsFifo (Waiting.in_waitminsz sz) timeout q v =
      let woken =
        Same-IsFifo q (record q { workers_waiting = dec q.workers_waiting })
          (refl, refl, refl, refl, refl) v in
      if_IsFifo (not (is_ok q)) _ _ (λ _. woken) (λ _. waitminsz_loop-IsFifo sz _ woken)

  settle-IsFifo :
      (others : List (Waiting T)) (o : Outcome T)
      → IsFifo (queue_of o)
      → IsFifo (settle others o).queue
  settle-IsFifo others (Outcome.done r q) v = v
  settle-IsFifo others (Outcome.sleeps w q) v = v

  Step-IsFifo : {s t : System T} → Step s t → IsFifo s.queue → IsFifo t.queue
  Step-IsFifo {s} (Step.call c e) v =
      rw e (settle-IsFifo s.asleep (perform c s.queue) (perform-IsFifo c s.queue v))
  Step-IsFifo {s} (Step.wake xs w ys timeout f e) v =
      rw e (settle-IsFifo (xs ++ ys) (resume w timeout s.queue) (resume-IsFifo w timeout s.queue v))

  new_queue-IsFifo : (hi lo : ℕ) → IsFifo (new_queue {T = T} hi lo)
  unfolding new_queue
  new_queue-IsFifo hi lo = record {
    gone = [];
    parted = Merged.none_left;
    fifo = refl;
    bounded = λ h. omega arith;
  }

  -- Whatever the threads do and however their calls interleave: the accepted tasks are, in their order,
  -- those that are gone and then those that are queued; those that are gone are the taken and the flushed
  -- ones, each task once and both in their order; and a queue with a limit never holds more tasks than it.
  pub Reach-IsFifo :
      (hi lo : ℕ) {s : System T}
      → Reach (record { queue = new_queue hi lo; asleep = [] }) s
      → IsFifo s.queue
  Reach-IsFifo hi lo Reach.here = new_queue-IsFifo hi lo
  Reach-IsFifo hi lo (Reach.next r st) = Step-IsFifo st (Reach-IsFifo hi lo r)
