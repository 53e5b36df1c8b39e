-- ===== src/Concurrency/Running.antt =====
-- That each task which a queue takes in runs once, in order, and what becomes of tasks at `Stop`.
use ad_index.Base.{
  ℕ, zero, suc, ◌+◌, ◌*◌, ◌<◌, ◌≤◌, ◌≡◌, ◌≢◌, ◌⊎◌, refl, sym, ap, ap₂, ◌∙◌, Returns, Bool, true,
  false, List, [], ◌∷◌, ◌++◌, length, none, ◌==◌, if◌then◌else◌, done, arith, Bool-cases, inl, inr,
}
use mathlib.Core.Path.{subst}
use native.Mathlib.Decide.{dec_lt}
use mathlib.Core.List.{append_assoc, append-nil}
use ad_index.Concurrency.LockFreeQueue.{LockFreeQueue, push}
use ad_index.Concurrency.Fifo.{IsFifo, push-IsFifo, push_full, pop-IsFifo, pop_empty}
use ad_index.Concurrency.ThreadPool.{
  Place, waits, wakes, takes, runs, ends, Worker, thread_step, taken_in, run_worker,
}

-- The task that a worker has taken out and not yet run.
abbrev pub in_hand : Place → List ℕ
in_hand waits = []
in_hand wakes = []
in_hand (takes empty) = []
in_hand (runs task) = task ∷ []
in_hand ends = []

-- The tasks of a source: those that ran, the one in hand and those that wait are the ones taken in.
pub record Holds (w : Worker) (tasks : List ℕ) : Type 0 where
  pub fifo : IsFifo w.queue tasks
  pub kept : w.accepted ≡ w.ran ++ (in_hand w.place ++ tasks)

-- The steps that a worker has left after `Stop`.
abbrev pub steps_left : Place → ℕ → ℕ
steps_left waits n = 4 * n + 6
steps_left wakes n = 4 * n + 5
steps_left (takes true) n = 4 * n + 7
steps_left (takes false) n = if n == 0 then 8 else 4 * n + 4
steps_left (runs task) n = 4 * n + 7
steps_left ends n = 0

abbrev pub Moves : ℕ → Place → Worker → List ℕ → Type 0
Moves status place w tasks =
    (w' : Worker) × (tasks' : List ℕ) × (thread_step status place w ≡ done w')
    × Holds w' tasks'
    × (w'.accepted ≡ w.accepted)
    × (status ≡ 0
        → place ≢ ends
        → (steps_left w'.place (length tasks') < steps_left place (length tasks))
          × (w'.place ≡ ends → tasks' ≡ []))

-- A worker's step does not fail, keeps account, and brings it nearer to its end after `Stop`.
pub step_at :
    (place : Place) (status : ℕ) (tasks : List ℕ) (w : Worker)
    → Holds w tasks
    → w.accepted ≡ w.ran ++ (in_hand place ++ tasks)
    → Moves status place w tasks
unfolding thread_step
step_at waits status [] w v k = elim (Bool-cases (status == 0)) [
  | inl stopped ↦ (
    record w { place = wakes },
    [],
    ground (arith, stopped, (pop_empty w.queue v.fifo).0),
    record { fifo = v.fifo; kept = k },
    refl,
    λ s n. (omega arith, λ f. cc),
  )
  | inr goes ↦
      (w, [], ground (arith, goes, (pop_empty w.queue v.fifo).0), v, refl, λ s. ground arith)
]
step_at waits status (task ∷ tasks) w v k =
    let (q, full, popped, v', m) = pop-IsFifo w.queue task tasks v.fifo in
    (
      record w { place = wakes },
      task ∷ tasks,
      ground (arith, full),
      record { fifo = v.fifo; kept = k },
      refl,
      λ s n. (omega arith, λ f. cc),
    )
step_at wakes status [] w v k = (
  record w { place = ends },
  [],
  ground (arith, (pop_empty w.queue v.fifo).0),
  record { fifo = v.fifo; kept = k },
  refl,
  λ s n. (omega arith, λ f. refl),
)
step_at wakes status (task ∷ tasks) w v k =
    let (q, full, popped, v', m) = pop-IsFifo w.queue task tasks v.fifo in
    (
      record w { place = takes false },
      task ∷ tasks,
      ground (arith, full),
      record { fifo = v.fifo; kept = k },
      refl,
      λ s n. (ground arith, λ f. cc),
    )
step_at (takes true) status tasks w v k = (
  record w { place = waits },
  tasks,
  refl,
  record { fifo = v.fifo; kept = k },
  refl,
  λ s n. (omega arith, λ f. cc),
)
step_at (takes false) status [] w v k =
    let (empty, popped) = pop_empty w.queue v.fifo in
    (
      record w { place = takes true },
      [],
      ground (arith, empty, popped),
      record { fifo = v.fifo; kept = k },
      refl,
      λ s n. (ground arith, λ f. cc),
    )
step_at (takes false) status (task ∷ tasks) w v k =
    let (q, full, popped, v', m) = pop-IsFifo w.queue task tasks v.fifo in
    (
      record w { queue = q; place = runs task },
      tasks,
      ground (arith, popped),
      record { fifo = v'; kept = k },
      refl,
      λ s n. (ground arith, λ f. cc),
    )
step_at (runs task) status tasks w v k = (
  record w { place = waits; ran = w.ran ++ task ∷ [] },
  tasks,
  refl,
  record { fifo = v.fifo; kept = k ∙ sym (append_assoc w.ran (task ∷ []) tasks) },
  refl,
  λ s n. (omega arith, λ f. cc),
)
step_at ends status tasks w v k = (w, tasks, refl, v, refl, λ s n. absurd (n refl))

ends_or_not : (place : Place) → (place ≡ ends) ⊎ (place ≢ ends)
ends_or_not waits = inr (λ e. cc)
ends_or_not wakes = inr (λ e. cc)
ends_or_not (takes empty) = inr (λ e. cc)
ends_or_not (runs task) = inr (λ e. cc)
ends_or_not ends = inl refl

steps_left_pos : (place : Place) (n : ℕ) → place ≢ ends → 0 < steps_left place n
steps_left_pos waits n h = omega arith
steps_left_pos wakes n h = omega arith
steps_left_pos (takes true) n h = omega arith
steps_left_pos (takes false) n h = ground arith
steps_left_pos (runs task) n h = omega arith
steps_left_pos ends n h = absurd (h refl)

pub thread_step_ended :
    (place : Place) (status : ℕ) (w : Worker) → place ≡ ends → thread_step status place w ≡ done w
unfolding thread_step
thread_step_ended place status w e = subst (λ p. thread_step status p w ≡ done w) (sym e) refl

run_worker_ended :
    (fuel status : ℕ) (w : Worker) → w.place ≡ ends → run_worker fuel status w ≡ done w
unfolding run_worker
run_worker_ended zero status w e = refl
run_worker_ended (suc fuel) status w e =
    rw (thread_step_ended w.place status w e) (run_worker_ended fuel status w e)

-- After `Stop` a worker that has not ended runs all tasks that its queue holds, in the order in which
-- they were taken in, and ends.
pub run_worker_ends :
    (fuel : ℕ) (w : Worker) (tasks : List ℕ)
    → Holds w tasks
    → w.place ≢ ends
    → steps_left w.place (length tasks) ≤ fuel
    → (w' : Worker) × (run_worker fuel 0 w ≡ done w') × (w'.place ≡ ends) × (w'.ran ≡ w.accepted)
unfolding run_worker
run_worker_ends zero w tasks v n enough =
    absurd (omega (arith, enough, steps_left_pos w.place (length tasks) n))
run_worker_ends (suc fuel) w tasks v n enough =
    let (w', tasks', moved, v', same, nearer) = step_at w.place 0 tasks w v v.kept in
    elim (ends_or_not w'.place) [
      | inl ended ↦ (
        w',
        rw moved (run_worker_ended fuel 0 w' ended),
        ended,
        (sym (append-nil w'.ran)
            ∙ ap₂ (λ p ts. w'.ran ++ (in_hand p ++ ts)) (sym ended) (sym ((nearer refl n).1 ended))
            ∙ sym v'.kept
            ∙ same),
      )
      | inr more ↦
          let (w'', run, ended, ran) =
            run_worker_ends fuel w' tasks' v' more (omega (arith, (nearer refl n).0, enough)) in
          (w'', rw moved run, ended, ran ∙ same)
    ]

-- What `Push` does to a source keeps the account.
pub taken_in-Holds :
    (w : Worker) (tasks : List ℕ) (node task : ℕ) (pushed : Bool) (q : LockFreeQueue)
    → Holds w tasks
    → w.queue.nodes node ≡ none
    → push node task w.queue ≡ done (pushed, q)
    → (tasks' : List ℕ) × Holds (taken_in pushed task q w) tasks'
unfolding taken_in
taken_in-Holds w tasks node task pushed q v free e =
    elim (dec_lt (length tasks) w.queue.max_queue_size) [
      | yes room ↦
          let (q', pushes', v', m) = push-IsFifo node task tasks w.queue free v.fifo room in
          subst (λ r. Returns r (λ x. (tasks' : List ℕ) × Holds (taken_in x.0 task x.1 w) tasks'))
            (sym pushes' ∙ e)
            (
              tasks ++ task ∷ [],
              record {
                fifo = v';
                kept =
                    ap (λ l. l ++ task ∷ []) v.kept
                    ∙ append_assoc w.ran (in_hand w.place ++ tasks) (task ∷ [])
                    ∙ ap (λ l. w.ran ++ l) (append_assoc (in_hand w.place) tasks (task ∷ []));
              },
            )
      | no full ↦
          subst (λ r. Returns r (λ x. (tasks' : List ℕ) × Holds (taken_in x.0 task x.1 w) tasks'))
            (sym (push_full node task tasks w.queue v.fifo (omega (arith, full))) ∙ e)
            (tasks, record { fifo = v.fifo; kept = v.kept })
    ]
