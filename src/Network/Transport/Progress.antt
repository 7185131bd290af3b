-- ===== src/Network/Transport/Progress.antt =====
-- Messages that go through, one after the other: MIPTP and the MIP daemon at both ends.
use in_lib.Base.{
  ℕ, ◌+◌, ◌≤◌, ◌<◌, ◌≡◌, refl, sym, ap, ◌∙◌, subst, ltb, if◌then◌else◌, ==-self, true, List, [],
  ◌∷◌, ◌++◌, map, some, none, length, get_or, drop, Byte, All, ret, ◌/◌, ◌%◌, arith,
}
use in_lib.Packet.{of_bytes}
use in_lib.Miptp.Host.{Host, Write, SeqLink, MessageNode, field_of, seq_limit}
use in_lib.Miptp.Send.{forward_to_mip, write_node, send_ack}
use in_lib.Miptp.Send.Window.{node_for, InStep, RunsFrom, forward_to_mip_lem}
use in_lib.Miptp.Receive.{seq_exp, receive_ack, receive_data, advance, read_message}
use in_lib.Miptp.Receive.InOrder.{accept_known, next_seq-lt, seq_exp-advance}
use in_lib.Network.Messages.{carried, handed_over_even, seq-carried, port-carried, target-carried}
use in_lib.Network.Passage.{Daemons, words_pass, node-Passes, target-overlay}
use in_lib.Network.Transport.Packets.{reply, carried_taken}
use in_lib.Network.Transport.Rounds.{
  Round, exchange, Rounds, done, next, is_ack, read_one, ack_lem, receive_ack_only, no_ack,
}

-- Nothing waits, and the receiver's link expects the sender's next number.
pub record IsQuiet (src i : ℕ) (sender receiver : Host) : Type 0 where
  pub idle : sender.message_queue ≡ []
  pub expects : seq_exp receiver.seq_link src sender.port ≡ some (i, sender.seq_send)

-- What an application may write to be carried to that port: the address and the port in front, an
-- even number of bytes, and few enough for the MIP header.
abbrev pub Sendable : ℕ → ℕ → List Byte → Type 0
Sendable dst port bytes =
    ((k : ℕ) × (length bytes ≡ 2 + k))
    × (length bytes ≤ 2038)
    × (length bytes % 2 ≡ 0)
    × (get_or bytes 0 0 ≡ dst)
    × (get_or bytes 1 0 ≡ port)

module _ (src dst mip_daemon fd fd' time i : ℕ) (stack : List Byte) (there back : Daemons)
    (small_src : src < 256) (small_dst : dst < 256) where
  -- One message.
  one_delivered :
      (bytes : List Byte) (sender receiver : Host)
      → Sendable dst receiver.port bytes
      → sender.seq_send < seq_limit
      → IsQuiet src i sender receiver
      → (sender' receiver' : Host) × Round src dst mip_daemon fd fd' time stack there back sender
          receiver bytes
          (src ∷ sender.port ∷ drop 2 bytes)
          sender'
          receiver'
        × IsQuiet src i sender' receiver'
        × (sender'.port ≡ sender.port)
        × (sender'.seq_send ≡ sender.seq_send + 1)
        × (receiver'.port ≡ receiver.port)
  unfolding send_ack
  one_delivered bytes sender receiver ((k, long), short, even, to, port) small quiet = (
    sender',
    receiver',
    exchange (write_node mip_daemon node).bytes p answer.bytes acked sent_off
        (node-Passes there src dst k time bytes stack sender long short small_src small_dst to) read
        (words_pass back dst src 6 answer.bytes ack.0 (ap (λ n. n % 4) ack.0) (omega (arith, ack.0))
          small_dst small_src ack.1)
        emptied,
    quiet',
    refl,
    refl,
    refl,
  )
    where
      node : MessageNode
      node = node_for bytes stack time sender

      p : List Byte
      p = carried src node

      in_step : InStep sender.seq_send sender
      in_step = record {
        runs = subst (RunsFrom sender.seq_send) (sym quiet.idle) tt;
        last = omega (arith, ap (λ (q : List MessageNode). length q) quiet.idle);
      }

      sent : Host
      sent = record sender {
        seq_send = sender.seq_send + 1;
        message_queue = sender.message_queue ++ (node ∷ []);
      }

      sent_off :
          forward_to_mip mip_daemon bytes stack time sender
          ≡ ret (sent, write_node mip_daemon node ∷ [])
      sent_off =
          (forward_to_mip_lem mip_daemon time sender.seq_send bytes stack sender in_step small
            (omega arith)).0
          ∙ ap (λ q. ret (sent, if ltb (length q) 16 then write_node mip_daemon node ∷ [] else []))
              quiet.idle

      links : List SeqLink
      links = advance receiver.seq_link i

      receiver' : Host
      receiver' = record receiver { seq_link = links }

      sender' : Host
      sender' = record sent { message_queue = [] }

      answer : Write
      answer = reply mip_daemon fd' (length p) p receiver

      number : field_of (of_bytes p).msg / 4 ≡ sender.seq_send
      number = seq-carried bytes stack time src k sender long small

      ack :
          (length answer.bytes ≡ 8)
          × (get_or answer.bytes 0 0 ≡ src)
          × (get_or (of_bytes (dst ∷ 0 ∷ drop 2 answer.bytes)).msg 1 0
              ≡ get_or (of_bytes p).msg 0 0)
          × (is_ack (dst ∷ 0 ∷ drop 2 answer.bytes) (length (dst ∷ 0 ∷ drop 2 answer.bytes)) ≡ true)
          × (field_of (of_bytes (dst ∷ 0 ∷ drop 2 answer.bytes)).msg / 4
              ≡ field_of (of_bytes p).msg / 4)
      ack =
          ack_lem mip_daemon (get_or (of_bytes p).msg 0 0) src (field_of (of_bytes p).msg / 4)
            (get_or (of_bytes p).msg 1 0) dst (omega (arith, number))

      acked : List Byte
      acked = dst ∷ 0 ∷ drop 2 answer.bytes

      read :
          read_message mip_daemon p [] time (receiver ∷ []) (fd' ∷ [])
          ≡ ret (
            receiver' ∷ [],
            answer ∷ record { fd = fd'; bytes = src ∷ sender.port ∷ drop 2 bytes } ∷ [],
          )
      read =
          read_one mip_daemon time fd' p receiver
            (receiver', answer ∷ record { fd = fd'; bytes = src ∷ sender.port ∷ drop 2 bytes } ∷ [])
            (target-carried bytes stack time src k sender long
              ∙ target-overlay bytes stack k long
              ∙ port)
            (ap
                (λ t.
                  if t
                  then receive_ack mip_daemon time (field_of (of_bytes p).msg / 4) receiver
                  else receive_data mip_daemon fd' p (length p) receiver)
                (no_ack bytes stack time src k sender long even)
              ∙ carried_taken bytes stack time src k sender long small mip_daemon fd' receiver links
                  (accept_known src sender.port i sender.seq_send sender.seq_send receiver.seq_link
                      quiet.expects
                    ∙ ap (λ t. ret (if t then some links else none)) (==-self sender.seq_send))
              ∙ ap (λ h. ret (receiver', answer ∷ record { fd = fd'; bytes = h } ∷ []))
                  (handed_over_even bytes src sender.port even))

      emptied : read_message mip_daemon acked [] time (sent ∷ []) (fd ∷ []) ≡ ret (sender' ∷ [], [])
      emptied =
          read_one mip_daemon time fd acked sent (sender', [])
            (ack.2 ∙ port-carried bytes stack time src k sender long)
            (ap
                (λ t.
                  if t
                  then receive_ack mip_daemon time (field_of (of_bytes acked).msg / 4) sent
                  else receive_data mip_daemon fd acked (length acked) sent)
                ack.3
              ∙ receive_ack_only mip_daemon time _ node sent (ap (λ q. q ++ (node ∷ [])) quiet.idle)
                  ((forward_to_mip_lem mip_daemon time sender.seq_send bytes stack sender in_step
                      small (omega arith)).1
                    ∙ sym number
                    ∙ sym ack.4))

      quiet' : IsQuiet src i sender' receiver'
      quiet' = record {
        idle = refl;
        expects =
            seq_exp-advance receiver.seq_link src sender.port i sender.seq_send quiet.expects
            ∙ ap (λ e. some (i, e)) (next_seq-lt sender.seq_send small);
      }

  -- Between two hosts with 8-bit addresses and one application each, from a state where nothing
  -- waits and the receiver's link expects the sender's next number: messages to the receiver, each of
  -- an even number of 2 to 2038 bytes, and as many as there are numbers before they wrap, can go
  -- through one after the other. Each is handed to the receiver's application once, as it was, with
  -- its source in the first two bytes, and its acknowledgement takes it off the sender's queue. What
  -- passes between the hosts are the frames that their MIP daemons make.
  pub all_delivered :
      (ms : List (List Byte)) (sender receiver : Host)
      → All (Sendable dst receiver.port) ms
      → sender.seq_send + length ms ≤ seq_limit
      → IsQuiet src i sender receiver
      → (sender' receiver' : Host) × Rounds src dst mip_daemon fd fd' time stack there back sender
          receiver ms
          (map (λ (b : List Byte). src ∷ sender.port ∷ drop 2 b) ms)
          sender'
          receiver'
        × IsQuiet src i sender' receiver'
  all_delivered [] sender receiver h room quiet = (sender, receiver, done, quiet)
  all_delivered (bytes ∷ ms) sender receiver (fine, h) room quiet =
      let (sender1, receiver1, first, quiet1, same, seq, same') =
        one_delivered bytes sender receiver fine (omega arith) quiet in
      let (sender2, receiver2, rest, quiet2) =
        all_delivered ms sender1 receiver1
          (subst (λ port. All (Sendable dst port) ms) (sym same') h) (omega (arith, seq)) quiet1 in
      (
        sender2,
        receiver2,
        next first (
            subst
              (λ port.
                Rounds src dst mip_daemon fd fd' time stack there back sender1 receiver1 ms
                  (map (λ (b : List Byte). src ∷ port ∷ drop 2 b) ms) sender2 receiver2)
              same rest),
        quiet2,
      )
