-- ===== src/Lib.antt =====
-- IN4230: a MIP daemon, a distance-vector routing daemon and a transport daemon (MIPTP) on one host.
--
-- The MIP daemon (mip_daemon.c, mip_daemon_utils.c) owns the raw socket. A client on a Unix socket
-- hands it a message; it queues the packet and asks the routing daemon for the next hop. The routing
-- daemon's response sends the first packet of the queue to the next hop, or moves it to the ARP queue
-- and broadcasts an ARP request. A received frame is answered (ARP), handed to the client of its
-- type, or passed on through the same queue. The routing daemon (routing_daemon.c, routing_utils.c)
-- learns its table from hellos and updates, which its MIP daemon broadcasts or sends to a neighbour.
-- MIPTP (miptp_daemon.c, miptp_utils.c) numbers the messages of its applications, sends them again
-- after a timeout, acknowledges what arrives and hands it on in order. The file transfer
-- (file_transfer.c, file_server.c, file_transfer_utils.c) is one pair of such applications. The ping
-- client and server (ping_client.c, ping_server.c) stand on the MIP daemon itself.
--
-- Where the parts are modelled, with the functions of the code under their own names:
--   Base      lists, bytes, C strings, and `Run`: the result of C code, which returns, ends the process
--             (`failed`: `exit`, `abort`, `error`), leaves an array (`overrun`) or runs out of fuel
--   Unix      the Unix socket that every program opens, with what the system calls return
--   Arguments `argparser` of each program, with the results of `getopt` and `atoi` given
--   Packet    general.h: `struct unix_packet`, and its bytes
--   Routing   Table: the linked list of nodes, `add_to_linked_list`, `handle_hello`, `lookup`;
--             Broken: `update_broken_paths`; Update: `update_routing_list`; Advertise: `send_update`;
--             Daemon: the messages, `read_from_socket`, `identify_broken_path`, and the main loop;
--             Main: `main`
--   Mip       Wire: the packed headers; Queue: the waiting queues; Link: the ARP cache, interfaces
--             and frames; Forward: mip_daemon_utils.c and the writes to Unix sockets; Daemon: the
--             branches of `poll_loop`; Loop: `poll_loop`; Main: `main`
--   Miptp     Host: miptp_daemon.h and the ports; Send: acknowledgements, the queue and the window;
--             Receive: `read_message`; Main: the loop of miptp_daemon.c; Startup: its sockets
--   FileTransfer  Links: file_transfer_utils.c; Server and Client: the two programs
--   Ping      Client, Server: the two programs
--   Network   what goes through several programs: an update, a request, a message, a file, a
--             request for a port, a ping from the command line; Transport: a step relation of an
--             application that sends, MIPTP on both hosts, and a network that loses, repeats and
--             reorders; Routers: a step relation of the routing daemons of all hosts, with updates
--             that may be late, lost or repeated
-- The modules below a part hold its proofs; those called Tests hold concrete runs.
--
-- State is passed explicitly: a handler takes the record of its daemon's variables and returns it
-- with the list of what it writes, in order. A packed struct is the list of its bytes, little-endian
-- as on x86-64. A byte is a number below 256 where a theorem says so; arithmetic wraps where the C
-- type does (`% 256`, `% 512`, `% 16`, `% 65536`). A linked list is a `List` without its head node. An
-- array with a counter is a list, checked against the array's size where the code writes.
--
-- Loops are recursion on the list that they walk. The `while (change)` of `update_broken_paths` runs
-- on fuel; its caller gives one more than the number of nodes, and each further pass makes at least
-- one node unreachable, so that this is enough. The main loops run over the rounds that the
-- environment offers: what `poll` reports, what `read`, `accept` and `recvmsg` return, and the clock.
-- Clock readings are arguments, in seconds. Within one handler the clock is read once.
--
-- Not modelled: the making of a directory; `free`, `close` at exit and what is printed, which change
-- no state that is read again; failing writes, among them the one of a negative size in `receive_data`, where
-- the model ends with `overrun`; what was written before a handler ends its process, which is not
-- kept; a frame so long that its copy leaves `pass_on`'s buffer; the two bytes that
-- `send_req_to_router` clears behind its buffer and that `forward_to_mip` copies from behind its own,
-- which nothing uses; script.py and obligtopology.py, which set up a test network.
pub mod Base
pub mod Packet
pub mod Unix
pub mod Arguments
pub mod Routing
pub mod Mip
pub mod Miptp
pub mod FileTransfer
pub mod Ping
pub mod Network
