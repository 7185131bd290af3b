-- ===== src/Miptp/Send.antt =====
-- The sending side of miptp_utils.c: the message queue of a host, its window, and acknowledgements.
-- `read` is taken to succeed; `stack` is what the uninitialised buffer held.
pub mod Window
use in_lib.Base.{
  ℕ, zero, suc, ◌+◌, ◌*◌, ◌/◌, ◌%◌, ◌≡◌, Bool, true, false, not, List, [], ◌∷◌, ◌++◌, Option, none,
  some, ltb, ◌==◌, if◌then◌else◌, length, get_or, get_elem?, set, ◌-◌, Byte, bufsize, first_bytes,
  align4, overlay, Run, ret, overrun, no_fuel, failed, ◌>>=◌,
}
use in_lib.Packet.{UnixPacket, to_bytes}
use in_lib.Miptp.Host.{MessageNode, Host, Write, Writes, seq_field, next_seq, pdu_bytes}

unfoldable pub send_ack : ℕ → ℕ → ℕ → ℕ → ℕ → Write
send_ack mip_daemon dst_port dst_mip seq src_port = record {
  fd = mip_daemon;
  bytes = first_bytes 8 (
      to_bytes (record {
        mip = dst_mip;
        ttl = 0;
        msg = pdu_bytes src_port dst_port (seq_field seq 2) [];
      }));
}

unfoldable pub add_to_queue : MessageNode → List MessageNode → List MessageNode
add_to_queue new_node queue = queue ++ (new_node ∷ [])

-- `write(fd, &node->packet, node->size)`.
abbrev pub write_node : ℕ → MessageNode → Write
write_node mip_daemon n = record { fd = mip_daemon; bytes = first_bytes n.size (to_bytes n.packet) }

-- `seq - queue->next->seq < 16`, as `int`s.
abbrev pub in_window : ℕ → List MessageNode → Bool
in_window seq [] = true
in_window seq (first ∷ rest) = ltb seq (first.seq + 16)

-- The node for a message of `rc` bytes in `buffer_up`. What is stored as padding is `rest`, the
-- bytes beyond a multiple of four.
unfoldable pub message_for : List Byte → ℕ → ℕ → Host → MessageNode
message_for buffer_up rc time host =
    let field = seq_field host.seq_send ((6 + rc) % 4) in
    record {
      packet = record {
        mip = get_or buffer_up 0 0;
        ttl = 0;
        msg = pdu_bytes host.port (get_or buffer_up 1 0) field (first_bytes rc buffer_up);
      };
      time = time;
      size = align4 (6 + rc);
      seq = field / 4;
    }

unfoldable pub forward_to_mip : ℕ → List Byte → List Byte → ℕ → Host → Run (Host × Writes)
unfolding message_for add_to_queue next_seq
forward_to_mip mip_daemon bytes stack time host =
    let new_node = message_for (overlay bytes stack) (length bytes) time host in
    let queue = add_to_queue new_node host.message_queue in
    if ltb (bufsize - 2) new_node.size
    then overrun
    else ret (
      record host { seq_send = next_seq host.seq_send; message_queue = queue },
      if in_window new_node.seq queue then write_node mip_daemon new_node ∷ [] else [],
    )

-- The `while` loop of `resend_window`, for `left` more packets.
unfoldable pub resend_from : ℕ → ℕ → ℕ → List MessageNode → List MessageNode × Writes
resend_from zero mip_daemon time queue = (queue, [])
resend_from (suc left) mip_daemon time [] = ([], [])
resend_from (suc left) mip_daemon time (n ∷ rest) =
    let (rest', out) = resend_from left mip_daemon time rest in
    (record n { time = time } ∷ rest', write_node mip_daemon n ∷ out)

unfoldable pub resend_window : ℕ → ℕ → List MessageNode → List MessageNode × Writes
unfolding resend_from
resend_window mip_daemon time queue = resend_from 16 mip_daemon time queue

-- The `while` loop of `send_next`: how many nodes it goes on by, and `i`, which it never changes.
unfoldable pub walk : ℕ → ℕ → List MessageNode → ℕ × ℕ
walk i steps [] = (steps, i)
walk i steps (n ∷ rest) =
    let further = walk i (steps + 1) rest in if i == 15 then (steps, i) else further

-- The queue and what is sent.
unfoldable pub send_next : ℕ → ℕ → List MessageNode → List MessageNode × Writes
unfolding walk
send_next mip_daemon time queue =
    let (steps, i) = walk 0 0 queue in
    if i == 15
    then elim (get_elem? queue (steps - 1)) [
      | none ↦ (queue, [])
      | some n ↦ (set queue (steps - 1) (record n { time = time }), write_node mip_daemon n ∷ [])
    ]
    else (queue, [])
