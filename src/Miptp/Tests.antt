-- ===== src/Miptp/Tests.antt =====
-- Concrete runs of MIPTP: port 5 of this host, and a link from port 7 of host 20.
use in_lib.Miptp.Main.{
  check_timeouts, resend_timed_out, serve, connect, serve_apps, serve_app, request_port,
}
use in_lib.Miptp.Host.{available_port, send_port_response, write_identifying_msg}
use in_lib.Base.{◌>>=◌}
use in_lib.Unix.{Socket, open_socket}
use in_lib.Miptp.Startup.{connect_to_mip_daemon, setup_unix_socket, main, main-KeepsPorts}
use in_lib.Base.{
  ℕ, ◌+◌, ◌≡◌, refl, List, [], ◌∷◌, ◌++◌, map, some, ltb, if◌then◌else◌, take, drop, Byte, ret,
  arith,
}
use in_lib.Miptp.Host.{SeqLink, MessageNode, Host, seq_limit}
use in_lib.Miptp.Send.{send_ack, write_node, resend_window, send_next, forward_to_mip}
use in_lib.Miptp.Send.Window.{
  send_next_idle, stamped, resend_window_lem, InStep, node_for, forward_to_mip_lem,
}
use in_lib.Miptp.Receive.{seq_exp, receive_data}
use in_lib.Miptp.Receive.InOrder.{accepted, consecutive, accepted_in_order, link_stalls}
use in_lib.Base.{Ends, ◌==◌, false, true}
use in_lib.Miptp.Main.{Miptp, Round, run}
use in_lib.Miptp.Main.Invariant.{KeepsPorts}
use in_lib.Miptp.Main.Ports.{ports_of, Unique}

abbrev host : Host
host = record { port = 5; fd_index = 3; seq_link = []; seq_send = 0; message_queue = [] }

-- An application sends "hi" to port 7 of host 20.
abbrev message : List Byte
message = 20 ∷ 7 ∷ b'h' ∷ b'i' ∷ []

abbrev waiting : List MessageNode
waiting = node_for message [] 50 host ∷ []

abbrev link : ℕ → SeqLink
link seq = record { port = 7; mip = 20; seq = seq }

abbrev stalled : Host
stalled = record host { seq_link = link seq_limit ∷ [] }

-- Packet 0 of the link, as the MIP daemon hands it up.
abbrev arrived : List Byte
arrived = 20 ∷ 0 ∷ 7 ∷ 5 ∷ 0 ∷ 0 ∷ b'h' ∷ b'i' ∷ []

send_next_idle_example : send_next 4 60 waiting ≡ (waiting, [])
send_next_idle_example = send_next_idle 4 60 waiting

resend_window_lem_example :
    resend_window 4 60 waiting
    ≡ (stamped 60 (take 16 waiting) ++ drop 16 waiting, map (write_node 4) (take 16 waiting))
resend_window_lem_example = resend_window_lem 4 60 waiting

host-InStep : InStep 0 host
host-InStep = ground arith

forward_to_mip_lem_example :
    let node = node_for message [] 50 host in
    let host' = record host { seq_send = 1; message_queue = node ∷ [] } in
    (forward_to_mip 4 message [] 50 host
      ≡ ret (host', if ltb 0 16 then write_node 4 node ∷ [] else []))
    × (node.seq ≡ 0)
    × InStep 0 host'
forward_to_mip_lem_example =
    forward_to_mip_lem 4 50 0 message [] host host-InStep (omega arith) (omega arith)

seq_exp_3 : seq_exp (link 3 ∷ []) 20 7 ≡ some (0, 3)
unfolding seq_exp
seq_exp_3 = refl

seq_exp_stalled : seq_exp stalled.seq_link 20 7 ≡ some (0, seq_limit)
unfolding seq_exp
seq_exp_stalled = refl

accepted_in_order_example :
    (n : ℕ) × (links' : List SeqLink) × (accepted 20 7 (3 ∷ 5 ∷ 3 ∷ 4 ∷ []) (link 3 ∷ [])
      ≡ ret (consecutive 3 n, links'))
    × (seq_exp links' 20 7 ≡ some (0, 3 + n))
accepted_in_order_example =
    accepted_in_order 20 7 0 3 (3 ∷ 5 ∷ 3 ∷ 4 ∷ []) (link 3 ∷ []) seq_exp_3 (omega arith)

link_stalls_example : receive_data 4 9 arrived 8 stalled ≡ ret (stalled, send_ack 4 7 20 0 5 ∷ [])
link_stalls_example =
    link_stalls 4 9 8 0 arrived stalled (omega arith) (omega arith) seq_exp_stalled

host-Unique : Unique (ports_of (host ∷ record host { port = 0 } ∷ []))
host-Unique = ground arith

abbrev new_host : Host
new_host = record host { port = 0 }

-- A packet of link 7 arrives, and then the second application asks for port 6.
abbrev miptp : Miptp
miptp = record { hosts = host ∷ new_host ∷ []; app_fds = 9 ∷ 10 ∷ []; done = false }

abbrev arrival : Round
arrival = record {
  now = 50;
  mip_hup = false;
  connects = false;
  mip_in = true;
  accepted = 0;
  random = 0;
  message = arrived;
  stack = [];
  time = 50;
  apps = λ i. record { pollhup = false; pollin = false; input = []; stack = []; time = 50 };
}

abbrev asking : Round
asking = record arrival {
  mip_in = false;
  apps = λ i. record { pollhup = false; pollin = i == 1; input = 6 ∷ []; stack = []; time = 51 };
}

abbrev socket : Socket
socket = record { path = b's' ∷ []; fd = some 4; accepted = true }

-- Two applications connect, and both ask for port 6.
abbrev connecting : Round
connecting = record arrival { mip_in = false; connects = true; accepted = 7; random = 50 }

abbrev asking_at : ℕ → Round
asking_at slot = record arrival {
  mip_in = false;
  apps = λ i. record { pollhup = false; pollin = i == slot; input = 6 ∷ []; stack = []; time = 51 };
}

abbrev rounds : List Round
rounds = connecting ∷ connecting ∷ asking_at 0 ∷ asking_at 1 ∷ []

main-KeepsPorts_example : Ends KeepsPorts (main socket socket 3 rounds)
main-KeepsPorts_example = main-KeepsPorts socket socket 3 rounds

second_denied :
    (main socket socket 3 rounds >>= λ r. ret r.1)
    ≡ ret (
        record { fd = 4; bytes = 5 ∷ [] }
        ∷ record { fd = 7; bytes = 1 ∷ 6 ∷ [] }
        ∷ record { fd = 7; bytes = 0 ∷ 0 ∷ [] }
        ∷ [])
unfolding main connect_to_mip_daemon setup_unix_socket open_socket run check_timeouts
    resend_timed_out serve connect serve_apps serve_app request_port available_port
    send_port_response write_identifying_msg
second_denied = refl
