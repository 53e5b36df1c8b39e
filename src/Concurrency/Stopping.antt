-- ===== src/Concurrency/Stopping.antt =====
-- What holds of a pool of threads in use: no task is lost or runs twice, but for those added during `Stop`.
use ad_index.Base.{
  ℕ, ◌<◌, ◌≡◌, refl, sym, ap, ◌∙◌, Returns, true, List, [], ◌∷◌, ◌++◌, length, none, ◌==◌, arith,
  Bool-cases, inl, inr,
}
use mathlib.Core.Path.{subst}
use ad_index.Concurrency.LockFreeQueue.{Nodes}
use ad_index.Concurrency.Fifo.{new_queue-IsFifo, push-IsFifo}
use ad_index.Concurrency.ThreadPool.{
  ends, taken_in, ThreadPool, update, start, Step, begins_add, refuses_add, pushes, stops, works,
  Reaches, stays, goes_on,
}
use ad_index.Concurrency.Running.{Holds, step_at, thread_step_ended, taken_in-Holds}

Step-Holds :
    {p p' : ThreadPool}
    → Step p p'
    → ((i : ℕ) → (tasks : List ℕ) × Holds (p.workers i) tasks)
    → (i : ℕ) → (tasks : List ℕ) × Holds (p'.workers i) tasks
Step-Holds (begins_add p task n) h i = h i
Step-Holds (refuses_add p task n) h i = h i
Step-Holds (pushes p us vs task j node pushed q e free r) h i = elim (Bool-cases (i == j)) [
  | inl same ↦ rw same (taken_in-Holds (p.workers j) (h j).0 node task pushed q (h j).1 free r)
  | inr other ↦ rw other (h i)
]
Step-Holds (stops p) h i = h i
Step-Holds (works p j w lt r) h i = elim (Bool-cases (i == j)) [
  | inl same ↦
      let (w', tasks', moved, v', rest, nearer) =
        step_at (p.workers j).place p.status (h j).0 (p.workers j) (h j).1 (h j).1.kept in
      rw same (
        subst (λ r. Returns r (λ x. (tasks : List ℕ) × Holds x tasks)) (sym moved ∙ r) (tasks', v'))
  | inr other ↦ rw other (h i)
]

-- Whatever calls and steps there are since `Start`, the tasks that a queue took in are those that its
-- worker ran, the one in its hand and those in the queue, in this order.
pub Reaches-Holds :
    (worker_size queue_size : ℕ) (first : ℕ → ℕ) (nodes : ℕ → Nodes) (p : ThreadPool)
    → Reaches (start worker_size queue_size first nodes) p
    → (i : ℕ) → (tasks : List ℕ) × Holds (p.workers i) tasks
unfolding start
Reaches-Holds worker_size queue_size first nodes p stays i =
    ([], record { fifo = new_queue-IsFifo (first i) queue_size (nodes i); kept = refl })
Reaches-Holds worker_size queue_size first nodes p (goes_on p' p'' r s) i =
    Step-Holds s (Reaches-Holds worker_size queue_size first nodes p' r) i

Step-ends :
    {p p' : ThreadPool} (i : ℕ)
    → Step p p'
    → (p.workers i).place ≡ ends
    → ((p'.workers i).place ≡ ends) × ((p'.workers i).ran ≡ (p.workers i).ran)
unfolding taken_in
Step-ends i (begins_add p task n) e = (e, refl)
Step-ends i (refuses_add p task n) e = (e, refl)
Step-ends i (pushes p us vs task j node pushed q f free r) e = elim (Bool-cases (i == j)) [
  | inl same ↦
      let at : i ≡ j = ground (arith, same) in
      rw same (
        subst (λ k. ((p.workers k).place ≡ ends) × ((p.workers k).ran ≡ (p.workers i).ran)) at
          (e, refl))
  | inr other ↦ rw other (e, refl)
]
Step-ends i (stops p) e = (e, refl)
Step-ends i (works p j w lt r) e = elim (Bool-cases (i == j)) [
  | inl same ↦
      let at : i ≡ j = ground (arith, same) in
      let ended : (p.workers j).place ≡ ends = subst (λ k. (p.workers k).place ≡ ends) at e in
      let kept : p.workers j ≡ w =
        ground (arith, thread_step_ended (p.workers j).place p.status (p.workers j) ended, r) in
      rw same (
        subst (λ x. (x.place ≡ ends) × (x.ran ≡ (p.workers i).ran)) kept
          (ended, ap (λ k. (p.workers k).ran) (sym at)))
  | inr other ↦ rw other (e, refl)
]

Reaches-ends :
    {p p' : ThreadPool} (i : ℕ)
    → Reaches p p'
    → (p.workers i).place ≡ ends
    → ((p'.workers i).place ≡ ends) × ((p'.workers i).ran ≡ (p.workers i).ran)
Reaches-ends i stays e = (e, refl)
Reaches-ends i (goes_on p' p'' r s) e =
    let (e', same) = Reaches-ends i r e in
    let (e'', same') = Step-ends i s e' in (e'', same' ∙ same)

-- A task whose `AddTask` passed the test of the status before `Stop` is taken in by the queue of a
-- worker that has ended, and never runs.
pub push_lost :
    (p : ThreadPool) (us vs : List (ℕ × ℕ)) (task i node : ℕ) (tasks : List ℕ)
    → p.adding ≡ us ++ (task, i) ∷ vs
    → (p.workers i).place ≡ ends
    → Holds (p.workers i) tasks
    → (p.workers i).queue.nodes node ≡ none
    → length tasks < (p.workers i).queue.max_queue_size
    → (p' : ThreadPool) × Step p p'
      × ((p'.workers i).accepted ≡ (p.workers i).accepted ++ task ∷ [])
      × ((p'' : ThreadPool) → Reaches p' p'' → (p''.workers i).ran ≡ (p.workers i).ran)
unfolding taken_in
push_lost p us vs task i node tasks e ended v free room =
    let (q, pushed, v', m) = push-IsFifo node task tasks (p.workers i).queue free v.fifo room in
    let here : (i == i) ≡ true = ground arith in
    (
      record p {
        adding = us ++ vs;
        workers = update p.workers i (taken_in true task q (p.workers i));
      },
      pushes p us vs task i node true q e free pushed,
      rw here refl,
      λ p'' r. (Reaches-ends i r (rw here ended)).1 ∙ rw here refl,
    )
