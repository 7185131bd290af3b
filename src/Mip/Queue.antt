-- ===== src/Mip/Queue.antt =====
-- The waiting queues of mip_daemon_utils.c: a linked list behind a head node that holds no message.
pub mod Fifo
use in_lib.Base.{ℕ, List, [], ◌∷◌, ◌++◌}
use in_lib.Mip.Wire.{RawPacket}

-- `head` is the packet of the head node, which `malloc` left as it was.
pub record WaitingQueue : Type 0 where
  pub head : RawPacket
  pub waiting : List RawPacket

unfoldable pub add_to_waiting_queue : WaitingQueue → RawPacket → WaitingQueue
add_to_waiting_queue q packet = record q { waiting = q.waiting ++ (packet ∷ []) }

-- The packet of the first node, which is removed; the head node's packet where there is none.
unfoldable pub pop_waiting_queue : WaitingQueue → RawPacket × WaitingQueue
pop_waiting_queue q = elim q.waiting [
  | [] ↦ (q.head, q)
  | first ∷ rest ↦ (first, record q { waiting = rest })
]
