-- ===== src/Miptp/Send/Window.antt =====
-- The sending window: what is sent at once, what is sent again, and what moving it sends.
use in_lib.Base.{
  ℕ, zero, suc, ◌+◌, ◌≤◌, ◌<◌, ◌≡◌, refl, ◌∙◌, List, [], ◌∷◌, ◌++◌, map, ltb, if◌then◌else◌, length,
  length-append, take, drop, Byte, ret, overlay, arith,
}
use in_lib.Miptp.Host.{MessageNode, Host, seq_limit}
use in_lib.Miptp.Send.{
  write_node, walk, send_next, resend_from, resend_window, in_window, message_for, add_to_queue,
  forward_to_mip,
}

walk-index : (steps : ℕ) (queue : List MessageNode) → (walk 0 steps queue).1 ≡ 0
unfolding walk
walk-index steps [] = refl
walk-index steps (n ∷ rest) = walk-index (steps + 1) rest

-- Moving the window never sends anything and changes nothing, however many packets wait: the
-- loop does not count.
pub send_next_idle :
    (mip_daemon time : ℕ) (queue : List MessageNode) → send_next mip_daemon time queue ≡ (queue, [])
unfolding send_next
send_next_idle mip_daemon time queue = rw (send_next, walk-index 0 queue) refl

abbrev pub stamped : ℕ → List MessageNode → List MessageNode
stamped time = map (λ (n : MessageNode). record n { time = time })

resend_from_lem :
    (left mip_daemon time : ℕ) (queue : List MessageNode)
    → resend_from left mip_daemon time queue ≡ (
      stamped time (take left queue) ++ drop left queue,
      map (write_node mip_daemon) (take left queue),
    )
unfolding resend_from
resend_from_lem zero mip_daemon time queue = refl
resend_from_lem (suc left) mip_daemon time [] = refl
resend_from_lem (suc left) mip_daemon time (n ∷ rest) =
    rw (resend_from_lem left mip_daemon time rest) refl

-- After a timeout the first sixteen packets of the queue are sent again, in order, with their
-- times renewed; the packets behind them are left alone.
pub resend_window_lem :
    (mip_daemon time : ℕ) (queue : List MessageNode)
    → resend_window mip_daemon time queue
      ≡ (stamped time (take 16 queue) ++ drop 16 queue, map (write_node mip_daemon) (take 16 queue))
unfolding resend_window
resend_window_lem mip_daemon time queue = resend_from_lem 16 mip_daemon time queue

-- The numbers of a queue run on from `from`.
abbrev pub RunsFrom : ℕ → List MessageNode → Type 0
RunsFrom from [] = Unit
RunsFrom from (n ∷ rest) = (n.seq ≡ from) × RunsFrom (from + 1) rest

-- The queue of a host holds the numbers up to the one that it sends next.
pub record InStep (from : ℕ) (host : Host) : Type 0 where
  pub runs : RunsFrom from host.message_queue
  pub last : host.seq_send ≡ from + length host.message_queue

RunsFrom-snoc :
    (from : ℕ) (queue : List MessageNode) (n : MessageNode)
    → RunsFrom from queue
    → n.seq ≡ from + length queue
    → RunsFrom from (queue ++ (n ∷ []))
RunsFrom-snoc from [] n r e = (omega arith, tt)
RunsFrom-snoc from (m ∷ rest) n r e = (r.0, RunsFrom-snoc (from + 1) rest n r.1 (omega arith))

-- The host after a message of `rc` bytes, and its new node.
abbrev pub node_for : List Byte → List Byte → ℕ → Host → MessageNode
node_for bytes stack time host = message_for (overlay bytes stack) (length bytes) time host

in_window-lt :
    (from : ℕ) (queue : List MessageNode) (n : MessageNode)
    → RunsFrom from queue
    → n.seq ≡ from + length queue
    → in_window n.seq (queue ++ (n ∷ [])) ≡ ltb (length queue) 16
in_window-lt from [] n r e = ground arith
in_window-lt from (m ∷ rest) n r e = ground arith

-- Before the numbers wrap, with the queued numbers in a row up to the next one, a message of at
-- most 4080 bytes gets the next number and the last place in the queue, and is sent at once
-- exactly if fewer than sixteen packets are in the queue before it. The numbers stay in a row.
pub forward_to_mip_lem :
    (mip_daemon time from : ℕ) (bytes stack : List Byte) (host : Host)
    → InStep from host
    → host.seq_send < seq_limit
    → length bytes ≤ 4080
    → let node = node_for bytes stack time host in
      let host' = record host {
        seq_send = host.seq_send + 1;
        message_queue = host.message_queue ++ (node ∷ []);
      } in
      (forward_to_mip mip_daemon bytes stack time host
        ≡ ret (
          host',
          if ltb (length host.message_queue) 16 then write_node mip_daemon node ∷ [] else [],
        ))
      × (node.seq ≡ host.seq_send)
      × InStep from host'
unfolding forward_to_mip message_for add_to_queue
forward_to_mip_lem mip_daemon time from bytes stack host v lim short =
    let node = node_for bytes stack time host in
    let number : node.seq ≡ host.seq_send = omega arith in
    let at : node.seq ≡ from + length host.message_queue = number ∙ v.last in
    (
      ground (arith, in_window-lt from host.message_queue node v.runs at),
      number,
      record {
        runs = RunsFrom-snoc from host.message_queue node v.runs at;
        last = omega (arith, v.last, length-append host.message_queue (node ∷ []));
      },
    )
