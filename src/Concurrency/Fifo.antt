-- ===== src/Concurrency/Fifo.antt =====
-- That the queue hands its tasks out in the order in which they came in.
use mathlib.Core.Path.{subst}
use ad_index.Base.{
  ℕ, suc, ◌+◌, ◌-◌, ◌<◌, ◌≤◌, ◌≡◌, refl, sym, ap, ◌∙◌, ◌≢◌, true, false, List, [], ◌∷◌, ◌++◌,
  length, length-append, none, some, ◌==◌, if◌then◌else◌, done, arith,
}
use ad_index.Concurrency.LockFreeQueue.{
  Node, Nodes, put_node, LockFreeQueue, is_empty, new_queue, push, pop,
}

-- From the node at an address on, the list ends with the node `last` and holds the tasks.
abbrev pub Linked : Nodes → ℕ → List ℕ → ℕ → Type 0
Linked nodes addr [] last = (x : Node) × (nodes addr ≡ some x) × (x.next ≡ none) × (addr ≡ last)
Linked nodes addr (task ∷ tasks) last =
    (x : Node) × (n : ℕ) × (y : Node) × (nodes addr ≡ some x)
    × (x.next ≡ some n)
    × (nodes n ≡ some y)
    × (y.entity ≡ task)
    × Linked nodes n tasks last

pub record IsFifo (q : LockFreeQueue) (tasks : List ℕ) : Type 0 where
  pub linked : Linked q.nodes q.head tasks q.tail
  pub counted : q.size ≡ length tasks

-- The nodes from an address on are us many, however they are listed.
Linked-length :
    (nodes : Nodes) (addr : ℕ) (us vs : List ℕ) (last last' : ℕ)
    → Linked nodes addr us last
    → Linked nodes addr vs last'
    → length us ≡ length vs
Linked-length nodes addr [] [] last last' h k = refl
Linked-length nodes addr [] (v ∷ vs) last last' (x, at, ends, e)
      (y, n, z, at', goes, at_n, here, k) =
    absurd (ground (arith, sym at ∙ at'))
Linked-length nodes addr (u ∷ us) [] last last' (y, n, z, at', goes, at_n, here, k)
      (x, at, ends, e) =
    absurd (ground (arith, sym at ∙ at'))
Linked-length nodes addr (u ∷ us) (v ∷ vs) last last' (x, n, z, at, goes, at_n, here, h)
      (x', n', z', at', goes', at_n', here', k) =
    let same : n ≡ n' = ground (arith, sym at ∙ at') in
    ap suc
      (Linked-length nodes n us vs last last' h (subst (λ m. Linked nodes m vs last') (sym same) k))

module _ (nodes : Nodes) (gone : ℕ) (behind : List ℕ) (last' : ℕ)
    (g : Linked nodes gone behind last') where
  Linked-apart :
      (addr : ℕ) (tasks : List ℕ) (last : ℕ)
      → length tasks < length behind
      → Linked nodes addr tasks last
      → (addr == gone) ≡ false
  Linked-apart addr tasks last l h =
      let other : addr ≢ gone = λ s. absurd (
        omega (
          arith,
          l,
          Linked-length nodes gone tasks behind last last'
              (subst (λ a. Linked nodes a tasks last) s h) g,
        )) in
      ground (arith, other)

  -- A node that is freed is not on the list if fewer nodes follow than from there on.
  Linked-erase :
      (addr : ℕ) (tasks : List ℕ) (last : ℕ)
      → length tasks < length behind
      → Linked nodes addr tasks last
      → Linked (put_node nodes gone none) addr tasks last
  Linked-erase addr [] last l h =
      let other = Linked-apart addr [] last l h in (h.0, ground (arith, h.1, other), h.2, h.3)
  Linked-erase addr (task ∷ tasks) last l (x, n, z, at, goes, at_n, here, h) =
      let other = Linked-apart addr (task ∷ tasks) last l (x, n, z, at, goes, at_n, here, h) in
      let other_n = Linked-apart n tasks last (omega (arith, l)) h in
      (
        x,
        n,
        z,
        ground (arith, at, other),
        goes,
        ground (arith, at_n, other_n),
        here,
        Linked-erase n tasks last (omega (arith, l)) h,
      )

-- A node behind the last one makes the list longer by its task.
Linked-append :
    (nodes : Nodes) (new : ℕ) (addr : ℕ) (tasks : List ℕ) (last : ℕ) (task : ℕ) (x : Node)
    → nodes new ≡ none
    → nodes last ≡ some x
    → x.next ≡ none
    → Linked nodes addr tasks last
    → Linked
        (put_node
          (put_node nodes new (some (record { entity = task; next = none })))
          last
          (some (record x { next = some new })))
        addr
        (tasks ++ task ∷ [])
        new
Linked-append nodes new addr [] last task x free at_last final (y, at, ends, e) =
    let other : (new == last) ≡ false =
      ground (arith, free, at_last, ap nodes {x = new} {y = last}) in
    (
      record x { next = some new },
      new,
      record { entity = task; next = none },
      ground (arith, e),
      refl,
      ground (arith, other),
      refl,
      (record { entity = task; next = none }, ground (arith, other), refl, refl),
    )
Linked-append nodes new addr (t ∷ tasks) last task x free at_last final
      (y, n, z, at, goes, at_n, here, h) =
    let rest = Linked-append nodes new n tasks last task x free at_last final h in
    let fresh : (addr == new) ≡ false = ground (arith, free, at, ap nodes {x = addr} {y = new}) in
    let fresh_n : (n == new) ≡ false = ground (arith, free, at_n, ap nodes {x = n} {y = new}) in
    let inner : (addr == last) ≡ false =
      ground (arith, at, at_last, goes, final, ap nodes {x = addr} {y = last}) in
    (
      y,
      n,
      (if n == last then record x { next = some new } else z),
      ground (arith, at, fresh, inner),
      goes,
      ground (arith, at_n, fresh_n),
      ground (arith, at_n, at_last, here, ap nodes {x = n} {y = last}),
      rest,
    )

Linked-last :
    (nodes : Nodes) (addr : ℕ) (tasks : List ℕ) (last : ℕ)
    → Linked nodes addr tasks last
    → (x : Node) × (nodes last ≡ some x) × (x.next ≡ none)
Linked-last nodes addr [] last (x, at, ends, e) = (x, ap nodes (sym e) ∙ at, ends)
Linked-last nodes addr (task ∷ tasks) last (x, n, z, at, goes, at_n, here, h) =
    Linked-last nodes n tasks last h

-- A new queue holds no task.
pub new_queue-IsFifo :
    (node max_queue_size : ℕ) (nodes : Nodes) → IsFifo (new_queue node max_queue_size nodes) []
unfolding new_queue
new_queue-IsFifo node max_queue_size nodes = record {
  linked = (record { entity = 0; next = none }, ground arith, refl, refl);
  counted = refl;
}

-- The queue after a task is pushed, with its last node.
abbrev pushed : ℕ → ℕ → LockFreeQueue → Node → LockFreeQueue
pushed node task q last = record q {
  size = q.size + 1;
  tail = node;
  nodes =
      put_node (put_node q.nodes node (some (record { entity = task; next = none }))) q.tail
        (some (record last { next = some node }));
}

-- `Push` puts the task behind the others.
pub push-IsFifo :
    (node task : ℕ) (tasks : List ℕ) (q : LockFreeQueue)
    → q.nodes node ≡ none
    → IsFifo q tasks
    → length tasks < q.max_queue_size
    → (q' : LockFreeQueue) × (push node task q ≡ done (true, q'))
      × IsFifo q' (tasks ++ task ∷ [])
      × (q'.max_queue_size ≡ q.max_queue_size)
unfolding push
push-IsFifo node task tasks q free v room =
    let (x, at, final) = Linked-last q.nodes q.head tasks q.tail v.linked in
    let other : (q.tail == node) ≡ false =
      ground (arith, free, at, ap q.nodes {x = q.tail} {y = node}) in
    (
      pushed node task q x,
      ground (arith, v.counted, room, at, other),
      record {
        linked = Linked-append q.nodes node q.head tasks q.tail task x free at final v.linked;
        counted = omega (arith, v.counted, length-append tasks (task ∷ []));
      },
      refl,
    )

-- A full queue refuses the task.
pub push_full :
    (node task : ℕ) (tasks : List ℕ) (q : LockFreeQueue)
    → IsFifo q tasks
    → q.max_queue_size ≤ length tasks
    → push node task q ≡ done (false, q)
unfolding push
push_full node task tasks q v full = ground (arith, v.counted, full)

-- `Pop` takes the first task out, and `Empty` tells whether there is one.
pub pop-IsFifo :
    (q : LockFreeQueue) (task : ℕ) (tasks : List ℕ)
    → IsFifo q (task ∷ tasks)
    → (q' : LockFreeQueue) × (is_empty q ≡ done false)
      × (pop q ≡ done (some task, q'))
      × IsFifo q' tasks
      × (q'.max_queue_size ≡ q.max_queue_size)
unfolding pop is_empty
pop-IsFifo q task tasks v =
    let (x, n, z, at, goes, at_n, here, h) = v.linked in
    (
      record q { size = q.size - 1; head = n; nodes = put_node q.nodes q.head none },
      ground (arith, at, goes),
      ground (arith, v.counted, at, goes, at_n, here),
      record {
        linked =
            Linked-erase q.nodes q.head (task ∷ tasks) q.tail v.linked n tasks q.tail (omega arith)
              h;
        counted = omega (arith, v.counted);
      },
      refl,
    )

pub pop_empty :
    (q : LockFreeQueue) → IsFifo q [] → (is_empty q ≡ done true) × (pop q ≡ done (none, q))
unfolding pop is_empty
pop_empty q v =
    let (x, at, ends, e) = v.linked in (ground (arith, at, ends), ground (arith, v.counted))
