-- ===== src/Concurrency/LockFreeQueue.antt =====
-- `LockFreeQueue` of kernel/common/concurrency/lock_free_queue.hpp: a linked list of nodes, the first of
-- which is spent. The calls run one at a time, as under the mutex of a `ThreadSrc`, so every
-- compare-and-swap succeeds. A task is a number, and `none` is nullptr.
use ad_index.Base.{
  ℕ, ◌+◌, ◌-◌, Bool, true, false, Option, none, some, leb, ◌==◌, if◌then◌else◌, Run, done, ◌>>=◌,
  read,
}

pub record Node : Type 0 where
  pub entity : ℕ
  pub next : Option ℕ

-- The memory of the nodes; there is none at an address that is not allocated.
abbrev pub Nodes : Type 0
Nodes = ℕ → Option Node

abbrev pub put_node : Nodes → ℕ → Option Node → Nodes
put_node nodes addr node j = if j == addr then node else nodes j

pub record LockFreeQueue : Type 0 where
  pub head : ℕ
  pub tail : ℕ
  pub size : ℕ
  pub max_queue_size : ℕ
  pub nodes : Nodes

-- `Empty`
unfoldable pub is_empty : LockFreeQueue → Run Bool
is_empty q =
    read (q.nodes q.head) >>= λ first. done (elim first.next [ none ↦ true | some n ↦ false ])

-- `LockFreeQueue`, with the address that `new` gives.
unfoldable pub new_queue : ℕ → ℕ → Nodes → LockFreeQueue
new_queue node max_queue_size nodes = record {
  head = node;
  tail = node;
  size = 0;
  max_queue_size = max_queue_size;
  nodes = put_node nodes node (some (record { entity = 0; next = none }));
}

-- `Push`, with the address that `new` gives.
unfoldable pub push : ℕ → ℕ → LockFreeQueue → Run (Bool × LockFreeQueue)
push node task q =
    if leb q.max_queue_size q.size
    then done (false, q)
    else let made : Nodes = put_node q.nodes node (some (record { entity = task; next = none })) in
      read (made q.tail) >>= λ last. done (
        true,
        record q {
          size = q.size + 1;
          tail = node;
          nodes = put_node made q.tail (some (record last { next = some node }));
        },
      )

-- The task that is given to the caller; `none` if `Pop` returns false.
unfoldable pub pop : LockFreeQueue → Run (Option ℕ × LockFreeQueue)
pop q =
    if q.size == 0
    then done (none, q)
    else read (q.nodes q.head) >>= λ first. elim first.next [
      | none ↦ done (none, q)
      | some n ↦ read (q.nodes n) >>= λ second. done (
        some second.entity,
        record q { size = q.size - 1; head = n; nodes = put_node q.nodes q.head none },
      )
    ]
