-- ===== src/Network/Transport/Tests.antt =====
-- A concrete history: of two messages the first arrives late.
use in_lib.Base.{drop, ◌≡◌, refl, List, [], ◌∷◌, ◌++◌, map, none, Byte, arith}
use in_lib.Miptp.Host.{Host}
use in_lib.Miptp.Send.{forward_to_mip, message_for, send_ack, send_next}
use in_lib.Miptp.Receive.{seq_exp, receive_data, receive_ack, accept, app_message}
use in_lib.Network.Messages.{handed_over}
use in_lib.Network.Transport.{Transport, send, packet, ack, Reach, started, later, start}
use in_lib.Network.Transport.Progress.{IsQuiet, all_delivered}
use in_lib.Network.Transport.Rounds.{Rounds}
use in_lib.Network.Passage.{Daemons}
use in_lib.Mip.Queue.{WaitingQueue}
use in_lib.Mip.Wire.{RawPacket}
use in_lib.Mip.Forward.{Mip}
use in_lib.Mip.Daemon.{zero_fd}
use in_lib.Network.Transport.Order.{delivered_in_order}

abbrev sender : Host
sender = record { port = 5; fd_index = 3; seq_link = []; seq_send = 7; message_queue = [] }

abbrev receiver : Host
receiver = record { port = 9; fd_index = 2; seq_link = []; seq_send = 0; message_queue = [] }

abbrev hello : List Byte
hello = 20 ∷ 9 ∷ b'h' ∷ b'i' ∷ []

abbrev goodbye : List Byte
goodbye = 20 ∷ 9 ∷ b'b' ∷ b'y' ∷ []

-- Both messages are sent, the second arrives, then the first, and both acknowledgements come back.
-- The first is not handed over, and no longer waits to be sent again.
late_first :
    (s : Transport) × Reach 10 20 4 6 (start sender receiver) s
    × (s.submitted ≡ hello ∷ goodbye ∷ [])
    × (s.delivered ≡ (10 ∷ 5 ∷ b'b' ∷ b'y' ∷ []) ∷ [])
    × (s.sender.message_queue ≡ [])
unfolding forward_to_mip message_for receive_data accept app_message receive_ack send_ack send_next
    seq_exp
late_first = (
  _,
  later
      (later
        (later
          (later
            (later (later started (send hello [] 50 2 _ refl refl (omega arith) refl))
              (send goodbye [] 50 2 _ refl refl (omega arith) refl))
            (packet 0 _ _ refl refl))
          (packet 1 _ _ refl refl))
        (ack 0 51 _ _ refl refl))
      (ack 1 51 _ _ refl refl),
  refl,
  refl,
  refl,
)

unknown_sender : seq_exp receiver.seq_link 10 5 ≡ none
unfolding seq_exp
unknown_sender = refl

delivered_in_order_example :
    (before run after : List (List Byte)) × (late_first.0.submitted ≡ before ++ (run ++ after))
    × (late_first.0.delivered ≡ map (λ (b : List Byte). handed_over b 10 5) run)
delivered_in_order_example =
    delivered_in_order 10 20 4 6 sender receiver unknown_sender late_first.0 late_first.1

-- The receiver has had a packet of the sender before.
abbrev knowing : Host
knowing = record receiver { seq_link = record { port = 5; mip = 10; seq = 7 } ∷ [] }

quiet : IsQuiet 10 0 sender knowing
unfolding seq_exp
quiet = record { idle = refl; expects = refl }

abbrev zero_packet : RawPacket
zero_packet = record {
  hdr = record { dst = 0; src = 0; ttl = 0; sdu_len = 0; sdu_type = 0 };
  sdu = [];
}

abbrev no_packets : WaitingQueue
no_packets = record { head = zero_packet; waiting = [] }

abbrev idle_daemon : Mip
idle_daemon = record { cache_table = []; routing_queue = no_packets; arp_queue = no_packets }

abbrev daemons : Daemons
daemons = record {
  first = idle_daemon;
  router = 6;
  stack = [];
  second = idle_daemon;
  fds = zero_fd ∷ zero_fd ∷ zero_fd ∷ zero_fd ∷ record zero_fd { fd = 7 } ∷ [];
  ifaces = [];
  stack' = [];
  iface = 0;
  mac = [];
}

all_delivered_example :
    (sender' receiver' : Host) × Rounds 10 20 4 3 6 50 [] daemons daemons sender knowing
      (hello ∷ goodbye ∷ [])
      (map (λ (b : List Byte). 10 ∷ 5 ∷ drop 2 b) (hello ∷ goodbye ∷ []))
      sender'
      receiver'
    × IsQuiet 10 0 sender' receiver'
all_delivered_example =
    all_delivered 10 20 4 3 6 50 0 [] daemons daemons (omega arith) (omega arith)
      (hello ∷ goodbye ∷ []) sender knowing
      (((2, refl), omega arith, refl, refl, refl), (((2, refl), omega arith, refl, refl, refl), tt))
      (omega arith) quiet
