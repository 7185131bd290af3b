-- ===== src/Mip/Main/Tests.antt =====
-- A run of the MIP daemon of host 10: the routing daemon connects, and says hello.
use in_lib.Base.{
  ℕ, ◌<◌, ◌≡◌, refl, true, false, List, [], ◌∷◌, none, some, ◌==◌, Byte, All, ret, failed, Ends,
  ◌>>=◌, arith,
}
use in_lib.Unix.{open_socket}
use in_lib.Mip.Wire.{RawPacket, hdr_bytes, create_mip_hdr}
use in_lib.Mip.Link.{
  IfAddr, frame, broadcast, get_mac_from_interface, local_interfaces, send_each, send_raw_packet,
  get_mac_from_index, broadcast_mac,
}
use in_lib.Mip.Forward.{handle_routing_msg, forward_hello}
use in_lib.Mip.Daemon.{Calls, handle_new_client, place_client, identify_unix_client}
use in_lib.Mip.Loop.{Poll, poll_loop, handle_slots, handle_slot, serve, with_revents}
use in_lib.Mip.Loop.Bounds.{IsPoll, KeepsDaemon}
use in_lib.Mip.Main.{Startup, main, setup_unix_socket, listen_unix_socket, setup_raw_socket}
use in_lib.Mip.Main.Bounds.{main-KeepsDaemon}

abbrev mac_a : List Byte
mac_a = 2 ∷ 0 ∷ 0 ∷ 0 ∷ 0 ∷ 1 ∷ []

abbrev ifaces : List IfAddr
ifaces =
    record { af_packet = true; is_lo = true; ifindex = 1; sll_addr = 0 ∷ [] }
    ∷ record { af_packet = true; is_lo = false; ifindex = 2; sll_addr = mac_a }
    ∷ []

abbrev blank : RawPacket
blank = record { hdr = record { dst = 0; src = 0; ttl = 0; sdu_len = 0; sdu_type = 0 }; sdu = [] }

abbrev startup : Startup
startup = record {
  unix_socket = record { path = b's' ∷ []; fd = some 3; accepted = true };
  raw_socket = some 4;
  routing_head = blank;
  arp_head = blank;
  now = 100;
}

-- A new client is always 8, says that it is the routing daemon, and then sends hellos.
abbrev calls : Calls
calls = record {
  accepted = some 8;
  received = none;
  identifier = 0x04;
  reads = some (255 ∷ 1 ∷ b'H' ∷ b'L' ∷ b'O' ∷ 0 ∷ 0 ∷ 0 ∷ []);
  stack = [];
}

-- A round in which one slot has input.
abbrev input_at : ℕ → ℕ → Poll
input_at slot now = record {
  now = now;
  revents = λ i. record { pollin = i == slot; pollhup = false };
  calls = λ i. calls;
  ifaces = ifaces;
}

abbrev polls : List Poll
polls = input_at 0 101 ∷ input_at 5 102 ∷ input_at 3 103 ∷ []

polls-IsPoll : All IsPoll polls
polls-IsPoll =
    let bytes : (i : ℕ) → All (λ b. b < 256) (255 ∷ 1 ∷ b'H' ∷ b'L' ∷ b'O' ∷ 0 ∷ 0 ∷ 0 ∷ []) =
      λ i. ground arith in
    (bytes, (bytes, (bytes, tt)))

main-KeepsDaemon_example : Ends KeepsDaemon (main startup 10 polls)
main-KeepsDaemon_example =
    main-KeepsDaemon startup 10 polls (omega arith) (omega arith) polls-IsPoll

-- The hello leaves through the one interface that is not "lo".
hello_forwarded :
    (main startup 10 polls >>= λ a. ret a.1)
    ≡ ret (
        frame (record {
          out_if = 2;
          dst_addr = broadcast_mac;
          src_addr = mac_a;
          eth_protocol = 0x88 ∷ 0xB5 ∷ [];
          contents = 255 ∷ 10 ∷ 33 ∷ 128 ∷ b'H' ∷ b'L' ∷ b'O' ∷ [];
        })
        ∷ [])
unfolding main setup_unix_socket open_socket listen_unix_socket setup_raw_socket poll_loop
    handle_slots handle_slot serve with_revents handle_new_client place_client identify_unix_client
    handle_routing_msg forward_hello broadcast get_mac_from_interface local_interfaces send_each
    send_raw_packet get_mac_from_index hdr_bytes create_mip_hdr
hello_forwarded = refl

-- The raw socket is refused.
main_fails : main (record startup { raw_socket = none }) 10 polls ≡ failed
unfolding main setup_unix_socket open_socket setup_raw_socket
main_fails = refl
