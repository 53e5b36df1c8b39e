-- ===== src/Concurrency/Tests.antt =====
-- The theorems on a pool of one worker, whose queue has room for two tasks.
use ad_index.Base.{
  ℕ, ◌≡◌, refl, false, List, [], ◌∷◌, ◌++◌, none, some, done, arith, ◌==◌, if◌then◌else◌,
}
use ad_index.Concurrency.LockFreeQueue.{Nodes, LockFreeQueue, is_empty, new_queue, pop}
use ad_index.Concurrency.Fifo.{IsFifo, pop-IsFifo}
use ad_index.Concurrency.ThreadPool.{
  wakes, runs, ends, Worker, thread_step, ThreadPool, update, start, Step, begins_add, stops, works,
  Reaches, stays, goes_on, run_worker,
}
use ad_index.Concurrency.Running.{Holds, run_worker_ends}
use ad_index.Concurrency.Stopping.{Reaches-Holds, push_lost}

abbrev no_nodes : Nodes
no_nodes j = none

-- A queue of the tasks 7 and 8, at 10, 11 and 12.
abbrev two_tasks : LockFreeQueue
two_tasks = record {
  head = 10;
  tail = 12;
  size = 2;
  max_queue_size = 3;
  nodes = λ j.
      if j == 10
      then some (record { entity = 0; next = some 11 })
      else if j == 11
      then some (record { entity = 7; next = some 12 })
      else if j == 12
      then some (record { entity = 8; next = none })
      else none;
}

two_tasks-IsFifo : IsFifo two_tasks (7 ∷ 8 ∷ [])
two_tasks-IsFifo = record {
  linked = (
    record { entity = 0; next = some 11 },
    11,
    record { entity = 7; next = some 12 },
    refl,
    refl,
    refl,
    refl,
    (
      record { entity = 7; next = some 12 },
      12,
      record { entity = 8; next = none },
      refl,
      refl,
      refl,
      refl,
      (record { entity = 8; next = none }, refl, refl, refl),
    ),
  );
  counted = refl;
}

pop-IsFifo_example :
    (q : LockFreeQueue) × (is_empty two_tasks ≡ done false)
    × (pop two_tasks ≡ done (some 7, q))
    × IsFifo q (8 ∷ [])
    × (q.max_queue_size ≡ two_tasks.max_queue_size)
pop-IsFifo_example = pop-IsFifo two_tasks 7 (8 ∷ []) two_tasks-IsFifo

abbrev busy : Worker
busy = record { queue = two_tasks; place = runs 6; accepted = 5 ∷ 6 ∷ 7 ∷ 8 ∷ []; ran = 5 ∷ [] }

run_worker_ends_example :
    (w : Worker) × (run_worker 15 0 busy ≡ done w) × (w.place ≡ ends) × (w.ran ≡ 5 ∷ 6 ∷ 7 ∷ 8 ∷ [])
run_worker_ends_example =
    run_worker_ends 15 busy (7 ∷ 8 ∷ []) (record { fifo = two_tasks-IsFifo; kept = refl }) (λ e. cc)
      (omega arith)

abbrev started : ThreadPool
started = start 1 2 (λ i. 10) (λ i. no_nodes)

-- A task is on its way, the pool is stopped, and the worker ends.
abbrev stopped : ThreadPool
stopped = record {
  worker_size = 1;
  status = 0;
  counter = 1;
  workers =
      update (update started.workers 0 (record (started.workers 0) { place = wakes })) 0
        (record (started.workers 0) { place = ends });
  adding = (9, 0) ∷ [];
}

Reaches-stopped : Reaches started stopped
unfolding thread_step start is_empty new_queue
Reaches-stopped =
    goes_on _ _
      (goes_on _ _ (goes_on _ _ (goes_on _ _ stays (begins_add started 9 (λ e. cc))) (stops _))
        (works _ 0 _ (omega arith) refl))
      (works _ 0 _ (omega arith) refl)

Reaches-Holds_example : (tasks : List ℕ) × Holds (stopped.workers 0) tasks
Reaches-Holds_example = Reaches-Holds 1 2 (λ i. 10) (λ i. no_nodes) stopped Reaches-stopped 0

push_lost_example :
    (p : ThreadPool) × Step stopped p
    × ((p.workers 0).accepted ≡ (stopped.workers 0).accepted ++ 9 ∷ [])
    × ((p' : ThreadPool) → Reaches p p' → (p'.workers 0).ran ≡ (stopped.workers 0).ran)
unfolding start new_queue
push_lost_example =
    push_lost stopped [] [] 9 0 11 [] refl refl
      (record {
        fifo = record {
          linked = (record { entity = 0; next = none }, refl, refl, refl);
          counted = refl;
        };
        kept = refl;
      })
      refl (omega arith)
