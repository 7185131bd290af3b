-- ===== src/Mip/Daemon.antt =====
-- The event loop of mip_daemon.c. A round of `poll` gives each slot of `fds` its events; what the
-- system calls of a slot's branch return is an argument, and the branch returns what it writes.
pub mod Slots
pub mod Transit
pub mod Clients
pub mod Bounds
use in_lib.Base.{
  ℕ, zero, suc, ◌+◌, ◌-◌, ◌*◌, ◌/◌, ◌%◌, ◌≡◌, Bool, true, false, not, ◌&&◌, ◌||◌, List, [], ◌∷◌,
  ◌++◌, Option, none, some, ltb, ◌==◌, if◌then◌else◌, length, get_or, set, drop, Byte, bufsize,
  first_bytes, overlay, Run, ret, failed, overrun, no_fuel, ◌>>=◌,
}
use in_lib.Packet.{UnixPacket, to_bytes, of_bytes, default_ttl}
use in_lib.Mip.Wire.{
  MipHdr, create_mip_hdr, hdr_bytes, hdr_of, create_arp_sdu, arp_bytes, arp_of, RawPacket,
}
use in_lib.Mip.Queue.{add_to_waiting_queue}
use in_lib.Mip.Link.{
  IfAddr, CacheTable, Output, write, close, Outputs, check_cache, cache_at, cache, send_raw_packet,
}
use in_lib.Mip.Forward.{
  Mip, send_req_to_router, write_to_unix_socket, handle_routing_msg, send_arp_queue,
}

-- `struct pollfd`, its two masks by the two bits that are used.
pub record Events : Type 0 where
  pub pollin : Bool
  pub pollhup : Bool

pub record PollFd : Type 0 where
  pub fd : ℕ
  pub events : Events
  pub revents : Events

abbrev pub no_events : Events
no_events = record { pollin = false; pollhup = false }

abbrev pub zero_fd : PollFd
zero_fd = record { fd = 0; events = no_events; revents = no_events }

-- `MAX_EVENTS` and the size of `fds`.
abbrev pub max_events : ℕ
max_events = 5

abbrev pub num_fds : ℕ
num_fds = 7

-- The daemon: `fds` and the globals.
pub record Daemon : Type 0 where
  pub fds : List PollFd
  pub mip : Mip

abbrev pub fd_at : Daemon → ℕ → ℕ
fd_at d i = (get_or d.fds i zero_fd).fd

-- A packet that `recvmsg` received: its payload, the interface, the source address.
pub record Received : Type 0 where
  pub payload : List Byte
  pub senders_iface : ℕ
  pub src_addr : List Byte

-- What the system calls of one slot return: `accept` (`none` if it fails), `recvmsg`, the one byte
-- that identifies a client, `read`. `stack` is what the memory of a local packet held before.
pub record Calls : Type 0 where
  pub accepted : Option ℕ
  pub received : Option Received
  pub identifier : Byte
  pub reads : Option (List Byte)
  pub stack : List Byte

-- `handle_new_client`: `pending_connections` is `&fds[5]`, of which the loop looks at five slots.
unfoldable pub place_client : ℕ → ℕ → ℕ → List PollFd → Run (List PollFd)
place_client zero slot client_fd fds = ret fds
place_client (suc more) slot client_fd fds =
    let next = place_client more (slot + 1) client_fd fds in
    if ltb slot num_fds
    then if (get_or fds slot zero_fd).fd == 0
      then ret (
          set fds slot (record (get_or fds slot zero_fd) {
            fd = client_fd;
            events = record { pollin = true; pollhup = true };
          }))
      else next
    else overrun

unfoldable pub handle_new_client : ℕ → List PollFd → Run (List PollFd)
unfolding place_client
handle_new_client client_fd fds = place_client max_events max_events client_fd fds

-- `memcpy(&fds[to], &fds[index], …)`, `memset(&fds[index], 0, …)`.
abbrev pub move_fd : ℕ → ℕ → List PollFd → List PollFd
move_fd to index fds = set (set fds to (get_or fds index zero_fd)) index zero_fd

unfoldable pub identify_unix_client : Byte → ℕ → List PollFd → List PollFd
identify_unix_client identifier index fds =
    if identifier == 0x02
    then move_fd 2 index fds
    else if identifier == 0x04
    then move_fd 3 index fds
    else if identifier == 0x05
    then move_fd 4 index fds
    else fds

-- `recv_raw_packet`: a sender that is not in the cache is entered.
unfoldable pub recv_raw_packet : Received → CacheTable → Run CacheTable
recv_raw_packet r table =
    let src = (hdr_of r.payload).src in
    elim (check_cache src table) [
      | none ↦ cache src r.senders_iface r.src_addr table
      | some index ↦ ret table
    ]

-- An ARP request for this host is answered; a response sends what waits for its address.
unfoldable pub receive_arp : Received → ℕ → List IfAddr → Mip → Run Outputs
receive_arp r mip_addr ifaces m =
    let sdu = arp_of (drop 4 r.payload) in
    let src = (hdr_of r.payload).src in
    let reply = first_bytes 8 (
      hdr_bytes (create_mip_hdr src mip_addr 1 4 0x01)
      ++ arp_bytes (create_arp_sdu mip_addr false)) in
    if sdu.type == 0
    then if sdu.address == mip_addr
      then elim (check_cache src m.cache_table) [
        | none ↦ overrun
        | some index ↦ cache_at m.cache_table index >>= λ entry.
            send_raw_packet ifaces r.senders_iface reply entry.mac >>= λ out. ret (out ∷ [])
      ]
      else ret []
    else send_arp_queue m.arp_queue sdu.address ifaces m.cache_table

-- A ping or a MIPTP message for this host: the size written counts the `sdu` only.
unfoldable pub deliver : Received → ℕ → Output
deliver r socket =
    let hdr = hdr_of r.payload in
    let total_size = hdr.sdu_len * 4 in
    write socket (
      first_bytes total_size (
        to_bytes
          (record { mip = hdr.src; ttl = 0; msg = first_bytes total_size (drop 4 r.payload) })))

-- A message for another host: the copy has the 14 bytes of the Ethernet header too many. The
-- second test of the TTL is the source's.
unfoldable pub pass_on : Received → ℕ → ℕ → List Byte → Mip → Mip × Outputs
pass_on r mip_addr router stack m =
    let hdr = hdr_of r.payload in
    let passed = record hdr { ttl = hdr.ttl - 1 } in
    let copied = drop 4 (first_bytes (length r.payload + 14) r.payload) in
    let packet : RawPacket = record { hdr = passed; sdu = overlay copied stack } in
    if hdr.ttl == 0
    then (m, [])
    else if ltb 0 passed.ttl || not (passed.ttl == 15)
    then (
      record m { routing_queue = add_to_waiting_queue m.routing_queue packet },
      send_req_to_router mip_addr hdr.dst router ∷ [],
    )
    else (m, [])

-- The branch of the raw socket behind `recv_raw_packet`.
unfoldable pub dispatch_raw :
    Received → ℕ → List IfAddr → List Byte → List PollFd → Mip → Run (Mip × Outputs)
dispatch_raw r mip_addr ifaces stack fds m =
    let hdr = hdr_of r.payload in
    let socket = λ (i : ℕ). (get_or fds i zero_fd).fd in
    if hdr.sdu_type == 0x01
    then (receive_arp r mip_addr ifaces m >>= λ out. ret (m, out))
    else if (hdr.sdu_type == 0x02) && (hdr.dst == mip_addr)
    then ret (m, deliver r (socket 2) ∷ [])
    else if (hdr.sdu_type == 0x05) && (hdr.dst == mip_addr)
    then ret (m, deliver r (socket 4) ∷ [])
    else if ((hdr.sdu_type == 0x02) || (hdr.sdu_type == 0x05)) && not (hdr.dst == mip_addr)
    then ret (pass_on r mip_addr (socket 3) stack m)
    else if hdr.sdu_type == 0x04
    then ret
        (m, write_to_unix_socket (drop 4 r.payload) (hdr.sdu_len * 4 % 256) hdr.src (socket 3) 0)
    else ret (m, [])

unfoldable pub receive_raw :
    Option Received → ℕ → List IfAddr → List Byte → List PollFd → Mip → Run (Mip × Outputs)
unfolding recv_raw_packet dispatch_raw
receive_raw none mip_addr ifaces stack fds m = failed
receive_raw (some r) mip_addr ifaces stack fds m = recv_raw_packet r m.cache_table >>= λ table.
    dispatch_raw r mip_addr ifaces stack fds (record m { cache_table = table })

-- `switch (i)`: case 2 has no `break`. `junk` is the uninitialised `protocol`.
unfoldable pub protocol_of : ℕ → ℕ → ℕ
protocol_of i junk =
    let ping = if i == 2 then 0x02 else junk in if (i == 2) || (i == 4) then 0x05 else ping

-- A message of an upper client in slot `i`. The copy of `size` bytes starts two bytes into the
-- buffer.
unfoldable pub receive_client :
    Option (List Byte) → ℕ → ℕ → ℕ → List Byte → Mip → Run (Mip × Outputs)
unfolding protocol_of
receive_client none i mip_addr router stack m = failed
receive_client (some buffer) i mip_addr router stack m =
    let up = of_bytes buffer in
    let size = length buffer in
    let ttl = if up.ttl == 0 then default_ttl else up.ttl in
    let packet : RawPacket = record {
      hdr = create_mip_hdr up.mip mip_addr ttl (size / 4) (protocol_of i (get_or stack 0 0));
      sdu = overlay (first_bytes size up.msg) stack;
    } in
    if ltb (bufsize - 2) size
    then overrun
    else ret (
      record m { routing_queue = add_to_waiting_queue m.routing_queue packet },
      send_req_to_router mip_addr up.mip router ∷ [],
    )
