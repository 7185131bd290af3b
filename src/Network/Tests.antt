-- ===== src/Network/Tests.antt =====
-- Concrete runs across daemons: an update of host 10 to 20, a request of host 10, a message to 20.
use in_lib.Unix.{Socket, open_socket}
use in_lib.FileTransfer.Server
use in_lib.Arguments.{ping_client}
use in_lib.Ping.Client.{write_to_server, start, write_identifying_msg}
use in_lib.Ping.Client.{pong}
use in_lib.Mip.Daemon.{receive_client}
use in_lib.Mip.Daemon.Transit.{enqueue}
use in_lib.Network.Pings.{command, command_queued, ping_reaches_miptp}
use in_lib.FileTransfer.Links
use in_lib.FileTransfer.Client.{ask_port}
use in_lib.Miptp.Host.{available_port, send_port_response}
use in_lib.Miptp.Main.{request_port}
use in_lib.Network.Ports.{
  asked, answer_of, attempt, FirstFree, IsFree, IsTaken, Enters, ports, port_or_end, server_asks,
  client_asks,
}
use in_lib.Base.{
  ℕ, ◌≢◌, All, overrun, length, Option, get_or, map, failed, ◌⊎◌, ◌>>=◌, ◌%◌, ◌≡◌, refl, true,
  false, List, [], ◌∷◌, none, some, Byte, overlay, starts_with3, ret, arith,
}
use in_lib.Packet.{of_bytes}
use in_lib.Routing.Table.{Node, RoutingList, lookup}
use in_lib.Routing.Update.{announced}
use in_lib.Routing.Advertise.{update_for}
use in_lib.Routing.Advertise.Decode.{advert}
use in_lib.Routing.Daemon.{Router, read_from_socket}
use in_lib.Mip.Wire.{RawPacket}
use in_lib.Mip.Queue.{WaitingQueue}
use in_lib.Mip.Link.{write}
use in_lib.Mip.Forward.{
  Mip, frame_of, send_req_to_router, update_frame, forward_response, handle_routing_msg,
}
use in_lib.Mip.Daemon.{PollFd, zero_fd, dispatch_raw}
use in_lib.Mip.Daemon.Clients.{arrives}
use in_lib.Miptp.Host.{Host}
use in_lib.Miptp.Receive.{read_message}
use in_lib.FileTransfer.Links.{check_link}
use in_lib.FileTransfer.Server.{serve}
use in_lib.FileTransfer.Client.{send_file}
use in_lib.Network.Files.{arrivals, file_received}
use in_lib.Network.Updates.{update_reaches_neighbour}
use in_lib.Network.Requests.{request_answered}
use in_lib.Network.Passage.{Daemons}

abbrev twenty : Node
twenty = record { mip = 20; distance = 1; next_mip = 20; last_rcv = 100 }

abbrev forty : Node
forty = record { mip = 40; distance = 2; next_mip = 20; last_rcv = 100 }

abbrev table : RoutingList
table = twenty ∷ forty ∷ []

abbrev router : Router
router = record { table = table; buffer = []; done = false; time_sent_hlo = 100 }

abbrev packet : RawPacket
packet = record {
  hdr = record { dst = 40; src = 10; ttl = 3; sdu_len = 1; sdu_type = 5 };
  sdu = 1 ∷ 2 ∷ 3 ∷ 4 ∷ [];
}

abbrev queue : WaitingQueue
queue = record { head = packet; waiting = packet ∷ [] }

abbrev daemon : Mip
daemon = record { cache_table = []; routing_queue = queue; arp_queue = queue }

abbrev fds : List PollFd
fds = zero_fd ∷ zero_fd ∷ zero_fd ∷ record zero_fd { fd = 6 } ∷ []

abbrev host : Host
host = record { port = 5; fd_index = 3; seq_link = []; seq_send = 0; message_queue = [] }

abbrev message : List Byte
message = 20 ∷ 7 ∷ b'h' ∷ b'i' ∷ []

update_reaches_neighbour_example :
    let sent = of_bytes (update_for twenty table) in
    (up : List Byte) × (dispatch_raw (arrives (update_frame sent 10) 2 []) 20 [] [] fds daemon
      ≡ ret (daemon, write 6 up ∷ []))
    × ((of_bytes up).mip ≡ 10)
    × (starts_with3 (of_bytes up).msg b'U' b'P' b'D' ≡ true)
    × (announced (of_bytes up) ≡ advert twenty table)
update_reaches_neighbour_example =
    update_reaches_neighbour twenty table 10 20 2 6 [] [] [] fds daemon (omega arith) (ground arith)
      (omega arith) refl (omega arith)

request_answered_example :
    (request reply : List Byte) × (send_req_to_router 10 40 6 ≡ write 6 request)
    × (read_from_socket (some request) 110 router
        ≡ ret (record router { buffer = overlay request [] }, reply ∷ []))
    × (handle_routing_msg (some reply) 10 [] daemon
        ≡ forward_response (lookup 40 table) 10 [] daemon)
request_answered_example = request_answered 10 40 6 110 10 router [] daemon

abbrev daemons : Daemons
daemons = record {
  first = daemon;
  router = 6;
  stack = [];
  second = daemon;
  fds = zero_fd ∷ zero_fd ∷ zero_fd ∷ zero_fd ∷ record zero_fd { fd = 7 } ∷ [];
  ifaces = [];
  stack' = [];
  iface = 0;
  mac = [];
}

no_link : check_link 7 10 [] ≡ none
unfolding check_link
no_link = refl

file_received_example :
    (ms : List (List Byte)) × (send_file 20 9 (b'h' ∷ b'i' ∷ []) ≡ ret ms)
    × (serve (arrivals 10 7 ms) []
        ≡ ret (
            record {
              port = 7;
              mip = 10;
              file_size = 0;
              file = record { contents = b'h' ∷ b'i' ∷ []; closed = true };
            }
            ∷ []))
file_received_example =
    file_received 20 9 10 7 (b'h' ∷ b'i' ∷ []) [] no_link (omega arith) (ground arith) refl
      (omega arith)

abbrev socket : Socket
socket = record { path = b's' ∷ []; fd = some 3; accepted = true }

opened : open_socket socket ≡ ret 3
unfolding open_socket
opened = refl

-- An application without a port, beside one with port 5.
abbrev fresh : Host
fresh = record host { port = 0 }

server_asks_example :
    let r = asked 1 8 (host ∷ fresh ∷ []) fresh 5 in
    (IsFree (host ∷ fresh ∷ []) 5
      × Enters (host ∷ fresh ∷ []) 1 fresh 5 r.0
      × (Server.main socket 5 (answer_of r.1) []
          ≡ (serve [] [] >>= λ links. ret (Links.write_identifying_msg 5 ∷ [], links))))
    ⊎ (IsTaken (host ∷ fresh ∷ []) 5
        × (r.0 ≡ host ∷ fresh ∷ [])
        × (Server.main socket 5 (answer_of r.1) [] ≡ failed))
server_asks_example = server_asks socket 3 1 8 5 (host ∷ fresh ∷ []) fresh [] opened refl

client_asks_example :
    (o : Option ℕ) × FirstFree (host ∷ fresh ∷ []) (ports (261 ∷ 0 ∷ 9 ∷ [])) o
    × ((ask_port 0 (map (attempt 1 8 (host ∷ fresh ∷ []) fresh) (261 ∷ 0 ∷ 9 ∷ [])) >>= λ r.
          ret r.0)
        ≡ port_or_end o)
client_asks_example = client_asks 1 8 (host ∷ fresh ∷ []) fresh 261 0 9

-- The first two are taken, by the other application and by the one that has no port yet.
third_is_free :
    (ask_port 0 (map (attempt 1 8 (host ∷ fresh ∷ []) fresh) (261 ∷ 0 ∷ 9 ∷ [])) >>= λ r. ret r.0)
    ≡ ret 9
unfolding ask_port request_port available_port send_port_response
third_is_free = refl

-- A number is the first byte here.
abbrev first : List Byte → ℕ
first text = get_or text 0 0

command_queued_example :
    (bytes : List Byte) × (p : RawPacket) × ((ping_client first
          (command first (40 ∷ []) (19 ∷ []) (b'x' ∷ []) (b's' ∷ []))
        >>= λ a. start a.msg a.mip_dst a.ttl)
      ≡ ret (write_identifying_msg ∷ bytes ∷ [], pong (b'x' ∷ [])))
    × (receive_client (some bytes) 2 10 6 [] daemon
        ≡ ret (enqueue daemon p, send_req_to_router 10 40 6 ∷ []))
    × (p.hdr.dst ≡ 40)
    × (p.hdr.src ≡ 10)
    × (p.hdr.ttl ≡ 3)
command_queued_example =
    command_queued first (40 ∷ []) (19 ∷ []) (b'x' ∷ []) (b's' ∷ []) 10 6 [] daemon (omega arith)
      (omega arith) (omega arith)

host-All : All (λ h. h.port ≢ b'I') (host ∷ [])
host-All = ground arith

abbrev x_text : List Byte
x_text = b'x' ∷ []

ping_reaches_miptp_example :
    let ping = write_to_server x_text (length x_text % 256) 20 5 in
    (p : RawPacket) × (up : List Byte) × (receive_client (some ping) 2 10 6 [] daemon
      ≡ ret (enqueue daemon p, send_req_to_router 10 20 6 ∷ []))
    × (dispatch_raw (arrives (frame_of p) 0 []) 20 [] [] daemons.fds daemon
        ≡ ret (daemon, write 7 up ∷ []))
    × (read_message 4 up [] 50 (host ∷ []) (8 ∷ []) ≡ overrun)
ping_reaches_miptp_example =
    ping_reaches_miptp daemons x_text [] 5 10 20 4 50 (host ∷ []) (8 ∷ []) (omega arith)
      (omega arith) host-All
