-- ===== src/Concurrency/ThreadPool.antt =====
-- `ThreadPool` of kernel/common/concurrency/thread_pool.{h,cc}. Each worker has a source of tasks of its
-- own, a queue under a mutex. A task is a number; that it runs is recorded.
use ad_index.Base.{
  ℕ, zero, suc, ◌+◌, ◌%◌, ◌≡◌, ◌≢◌, ◌<◌, Bool, true, false, List, [], ◌∷◌, ◌++◌, none, some, ◌==◌,
  if◌then◌else◌, Run, done, ◌>>=◌, u64_mod,
}
use ad_index.Concurrency.LockFreeQueue.{Nodes, LockFreeQueue, is_empty, new_queue, push, pop}

-- Where a worker stands in `ThreadBody`: at the wait, behind it, at the loop that takes a task (with
-- what `Empty` said), at the task, or at the end.
pub data Place : Type 0 where
  waits : Place
  wakes : Place
  takes : Bool → Place
  runs : ℕ → Place
  ends : Place

-- A `ThreadSrc` and its worker, with the tasks that its queue has taken in and those that have run, the
-- latest last.
pub record Worker : Type 0 where
  pub queue : LockFreeQueue
  pub place : Place
  pub accepted : List ℕ
  pub ran : List ℕ

-- One step of `ThreadBody`. Behind the wait `Empty` is called twice in a row; no one else takes tasks out,
-- so the second call says what the first one did. The mutex covers the test at the wait and each turn of the loop.
unfoldable pub thread_step : ℕ → Place → Worker → Run Worker
thread_step status waits w = is_empty w.queue >>= λ empty. done (
    if status == 0
    then record w { place = wakes }
    else if empty
    then w
    else record w { place = wakes })
thread_step status wakes w = is_empty w.queue >>= λ empty.
    done (if empty then record w { place = ends } else record w { place = takes false })
thread_step status (takes true) w = done (record w { place = waits })
thread_step status (takes false) w = pop w.queue >>= λ r. elim r.0 [
  | some task ↦ done (record w { queue = r.1; place = runs task })
  | none ↦ is_empty r.1 >>= λ empty. done (record w { queue = r.1; place = takes empty })
]
thread_step status (runs task) w = done (record w { place = waits; ran = w.ran ++ task ∷ [] })
thread_step status ends w = done w

-- What a call of `Push` leaves of a source.
unfoldable pub taken_in : Bool → ℕ → LockFreeQueue → Worker → Worker
taken_in pushed task q w = record w {
  queue = q;
  accepted = if pushed then w.accepted ++ task ∷ [] else w.accepted;
}

-- The workers, and the calls of `AddTask` that have passed the test of the status: a task, and the
-- number of the worker it is for.
pub record ThreadPool : Type 0 where
  pub worker_size : ℕ
  pub status : ℕ
  pub counter : ℕ
  pub workers : ℕ → Worker
  pub adding : List (ℕ × ℕ)

abbrev pub update : (ℕ → Worker) → ℕ → Worker → ℕ → Worker
update workers i w j = if j == i then w else workers j

-- `Start` of a pool that has not been started; `first` is the address that `new` gives each queue.
unfoldable pub start : ℕ → ℕ → (ℕ → ℕ) → (ℕ → Nodes) → ThreadPool
start worker_size queue_size first nodes = record {
  worker_size = worker_size;
  status = 1;
  counter = 0;
  workers = λ i. record {
    queue = new_queue (first i) queue_size (nodes i);
    place = waits;
    accepted = [];
    ran = [];
  };
  adding = [];
}

-- What may happen next: a call of `AddTask` passes or fails the test, or goes on to push; `Stop`; a
-- worker makes a step.
pub data Step : ThreadPool → ThreadPool → Type 0 where
  begins_add :
      (p : ThreadPool) (task : ℕ)
      → p.status ≢ 0
      → Step p (record p {
        counter = (p.counter + 1) % u64_mod;
        adding = p.adding ++ (task, p.counter % p.worker_size) ∷ [];
      })
  refuses_add : (p : ThreadPool) (task : ℕ) → p.status ≡ 0 → Step p p
  pushes :
      (p : ThreadPool) (us vs : List (ℕ × ℕ)) (task i node : ℕ) (pushed : Bool) (q : LockFreeQueue)
      → p.adding ≡ us ++ (task, i) ∷ vs
      → (p.workers i).queue.nodes node ≡ none
      → push node task (p.workers i).queue ≡ done (pushed, q)
      → Step p (record p {
        adding = us ++ vs;
        workers = update p.workers i (taken_in pushed task q (p.workers i));
      })
  stops : (p : ThreadPool) → Step p (record p { status = 0 })
  works :
      (p : ThreadPool) (i : ℕ) (w : Worker)
      → i < p.worker_size
      → thread_step p.status (p.workers i).place (p.workers i) ≡ done w
      → Step p (record p { workers = update p.workers i w })

-- What may happen from a pool on.
pub data Reaches (p : ThreadPool) : ThreadPool → Type 0 where
  stays : Reaches p p
  goes_on : (p' p'' : ThreadPool) → Reaches p p' → Step p' p'' → Reaches p p''

-- A worker on its own, for so many steps.
unfoldable pub run_worker : ℕ → ℕ → Worker → Run Worker
run_worker zero status w = done w
run_worker (suc n) status w = thread_step status w.place w >>= λ w'. run_worker n status w'
