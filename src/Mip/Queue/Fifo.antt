-- ===== src/Mip/Queue/Fifo.antt =====
-- The waiting queue is first in, first out.
use in_lib.Base.{◌≡◌, refl, sym, ap, ◌∙◌, List, [], ◌∷◌, ◌++◌, append-nil, append_assoc, arith}
use in_lib.Mip.Wire.{RawPacket}
use in_lib.Mip.Queue.{WaitingQueue, add_to_waiting_queue, pop_waiting_queue}

unfoldable pub add_all : WaitingQueue → List RawPacket → WaitingQueue
add_all q [] = q
add_all q (p ∷ ps) = add_all (add_to_waiting_queue q p) ps

-- Pops as many packets as the list is long.
unfoldable pub pop_all : List RawPacket → WaitingQueue → List RawPacket × WaitingQueue
pop_all [] q = ([], q)
pop_all (_ ∷ ps) q =
    let (p, q') = pop_waiting_queue q in let (more, q'') = pop_all ps q' in (p ∷ more, q'')

add_all_lem :
    (ps : List RawPacket) (q : WaitingQueue) → add_all q ps ≡ record q { waiting = q.waiting ++ ps }
unfolding add_all add_to_waiting_queue
add_all_lem [] q = ap (λ w. record q { waiting = w }) (sym (append-nil q.waiting))
add_all_lem (p ∷ ps) q =
    add_all_lem ps (add_to_waiting_queue q p)
    ∙ ap (λ w. record q { waiting = w }) (append_assoc q.waiting (p ∷ []) ps)

pop_all_lem :
    (xs ys : List RawPacket) (h : RawPacket)
    → pop_all xs (record { head = h; waiting = xs ++ ys }) ≡ (xs, record { head = h; waiting = ys })
unfolding pop_all pop_waiting_queue
pop_all_lem [] ys h = refl
pop_all_lem (x ∷ xs) ys h = ground (arith, pop_all_lem xs ys h)

-- Packets that are added to a queue come out behind those that waited, each once and in the order
-- of their arrival, and leave the queue empty.
pub pop_all-add_all :
    (q : WaitingQueue) (ps : List RawPacket)
    → pop_all (q.waiting ++ ps) (add_all q ps)
      ≡ (q.waiting ++ ps, record { head = q.head; waiting = [] })
pop_all-add_all q ps =
    ap (pop_all (q.waiting ++ ps)) (add_all_lem ps q) ∙ subst_nil (q.waiting ++ ps) q.head
  where
    subst_nil :
        (xs : List RawPacket) (h : RawPacket)
        → pop_all xs (record { head = h; waiting = xs }) ≡ (xs, record { head = h; waiting = [] })
    subst_nil xs h =
        ap (λ w. pop_all xs (record { head = h; waiting = w })) (sym (append-nil xs))
        ∙ pop_all_lem xs [] h
