-- ===== src/WorkQueue/Tests.antt =====
-- The theorems on the queue at a short run: a worker waits, a client puts a task, the worker wakes.
use libupnpp.Prelude.{ℕ, true, false, [], ◌∷◌, ◌≡◌, refl, arith}
use libupnpp.WorkQueue.{
  Queue, Waiting, Outcome, new_queue, is_ok, set_terminate_and_wait, put_wake, start, take, put,
  take_wake, worker_exit,
}
use libupnpp.WorkQueue.Fifo.{IsFifo, Reach-IsFifo}
use libupnpp.WorkQueue.Counts.{IsCounted, CalmReach, CalmReach-IsCounted}
use libupnpp.WorkQueue.Front.{reads_empty_front, Reach-front}
use libupnpp.WorkQueue.System.{System, Call, perform, resume, settle, Step, Reach}

abbrev fresh : System ℕ
fresh = record { queue = new_queue 2 1; asleep = [] }

abbrev after_call : System ℕ → Call ℕ → System ℕ
after_call s c = settle s.asleep (perform c s.queue)

abbrev one_worker : System ℕ
one_worker = after_call fresh (Call.starts 1)

abbrev worker_asleep : System ℕ
worker_asleep = after_call one_worker Call.takes

abbrev task_put : System ℕ
task_put = after_call worker_asleep (Call.puts 7 false)

abbrev task_taken : System ℕ
task_taken = settle [] (resume Waiting.in_take false task_put.queue)

still_asleep : task_put.asleep ≡ Waiting.in_take ∷ []
unfolding perform new_queue start take put
still_asleep = refl

steps_run : Reach fresh task_taken
steps_run =
    Reach.next
      (Reach.next
        (Reach.next (Reach.next Reach.here (Step.call (Call.starts 1) refl))
          (Step.call Call.takes refl))
        (Step.call (Call.puts 7 false) refl))
      (Step.wake [] Waiting.in_take [] false still_asleep refl)

taken_run : task_taken.queue.taken ≡ 7 ∷ []
unfolding perform new_queue start take put resume take_wake
taken_run = refl

Reach-IsFifo_example : IsFifo task_taken.queue
Reach-IsFifo_example = Reach-IsFifo 2 1 steps_run

has_worker : one_worker.queue.worker_threads ≡ 0 → one_worker.asleep ≡ []
unfolding perform new_queue start
has_worker h = cc

has_worker_asleep : worker_asleep.queue.worker_threads ≡ 0 → worker_asleep.asleep ≡ []
unfolding perform new_queue start take
has_worker_asleep h = cc

CalmReach-IsCounted_example : IsCounted worker_asleep
CalmReach-IsCounted_example = CalmReach-IsCounted 2 1 (
    CalmReach.next (CalmReach.next CalmReach.here (Step.call (Call.starts 1) refl) has_worker)
      (Step.call Call.takes refl) has_worker_asleep)

Reach-front_example :
    (reads_empty_front (perform Call.takes task_taken.queue) ≡ false)
    × (reads_empty_front (resume Waiting.in_take true task_taken.queue) ≡ false)
Reach-front_example = Reach-front 2 1 (omega arith) steps_run Call.takes Waiting.in_take true

abbrev worker_left : System ℕ
worker_left = after_call task_put Call.exits

not_ok : is_ok worker_left.queue ≡ false
unfolding perform new_queue start take put worker_exit
not_ok = refl

-- A client sleeps in `put` on a full queue, the queue is terminated, and the client wakes after the
-- reset: its counter goes from 0 to 2^32 - 1.
abbrev full : Queue ℕ
full = record (new_queue {T = ℕ} 1 1) {
  worker_threads = 1;
  tasks = 5 ∷ [];
  clients_waiting = 1;
  workers_exited = 1;
}

abbrev queue_after : Outcome ℕ → Queue ℕ
queue_after (Outcome.done r q) = q
queue_after (Outcome.sleeps w q) = q

wraps_run :
    (queue_after
      (put_wake 6 false (queue_after (set_terminate_and_wait (true ∷ []) full)))).clients_waiting
    ≡ 4294967295
unfolding set_terminate_and_wait put_wake new_queue
wraps_run = refl
