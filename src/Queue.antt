-- ===== src/Queue.antt =====
-- `queue_init`, `enqueue`, `dequeue` and `peek` of my_pthread.c. A function that changes `*q`
-- returns the new queue, which its caller stores.
mod Tests
pub mod Chain
pub mod Laws
pub mod Keeps
use virtual_memory_simulatio.Base.{ℕ, ◌+◌, ◌-◌, ◌==◌, if◌then◌else◌}
use virtual_memory_simulatio.Threads.{
  Queue, null, with_next, Cmd, ok, fault, pure, and_then, ◌>>=◌, ◌>>◌, load_tcb, change_tcb,
}

unfoldable pub queue_init : Queue
queue_init = record { head = null; tail = null; size = 0 }

pub enqueue : Queue → ℕ → Cmd Queue
enqueue q tcb_node =
    if q.size == 0
    then (do
      change_tcb tcb_node (with_next null)
      pure (record { head = tcb_node; tail = tcb_node; size = q.size + 1 }))
    else do
      change_tcb q.tail (with_next tcb_node)
      change_tcb tcb_node (with_next null)
      pure (record { head = q.head; tail = tcb_node; size = q.size + 1 })

-- `q->size--` runs only at a size other than 0.
pub dequeue : Queue → Cmd (ℕ × Queue)
dequeue q =
    if q.size == 0
    then pure (null, q)
    else if q.size == 1
    then (do
      change_tcb q.head (with_next null)
      pure (q.head, record { head = null; tail = null; size = q.size - 1 }))
    else do
      h ← load_tcb q.head
      change_tcb q.head (with_next null)
      pure (q.head, record { head = h.next_tcb; tail = q.tail; size = q.size - 1 })

unfoldable pub peek : Queue → ℕ
peek q = q.head
