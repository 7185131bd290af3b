-- ===== src/Mip/Forward.antt =====
-- mip_daemon_utils.c, with the socket helpers of mip_daemon.c: what the daemon does with a message
-- of the routing daemon, and with the packets that wait for one.
pub mod Delivery
pub mod Bounds
pub mod Responses
use in_lib.Base.{
  ℕ, zero, suc, ◌+◌, ◌*◌, ◌/◌, ◌%◌, ◌≡◌, Bool, true, false, List, [], ◌∷◌, ◌++◌, Option, none, some,
  ltb, ◌==◌, if◌then◌else◌, length, get_or, drop, Byte, first_bytes, align4, starts_with3, Run, ret,
  failed, overrun, no_fuel, ◌>>=◌,
}
use in_lib.Packet.{UnixPacket, to_bytes, of_bytes}
use in_lib.Mip.Wire.{
  MipHdr, create_mip_hdr, hdr_bytes, create_arp_sdu, arp_bytes, RawPacket, packet_bytes,
}
use in_lib.Mip.Queue.{WaitingQueue, add_to_waiting_queue, pop_waiting_queue}
use in_lib.Mip.Link.{
  IfAddr, CacheEntry, CacheTable, Output, write, Outputs, check_cache, cache_at, send_raw_packet,
  broadcast,
}

-- The daemon's globals.
pub record Mip : Type 0 where
  pub cache_table : CacheTable
  pub routing_queue : WaitingQueue
  pub arp_queue : WaitingQueue

unfoldable pub send_req_to_router : ℕ → ℕ → ℕ → Output
send_req_to_router mip_from mip_to router_socket = write router_socket (
    first_bytes 8
      (to_bytes (record { mip = mip_from; ttl = 0; msg = b'R' ∷ b'E' ∷ b'Q' ∷ mip_to ∷ [] })))

-- A socket 0 is one that is not connected. `msg_size` is a `uint8_t`.
unfoldable pub write_to_unix_socket : List Byte → ℕ → ℕ → ℕ → ℕ → Outputs
write_to_unix_socket msg msg_size mip_dst sock_server ttl =
    if sock_server == 0
    then []
    else write sock_server (
        first_bytes (align4 (2 + msg_size))
          (to_bytes (record { mip = mip_dst; ttl = ttl; msg = first_bytes msg_size msg })))
      ∷ []

-- A hello from the routing daemon, `rc` bytes long, goes to all neighbours.
unfoldable pub forward_hello : ℕ → ℕ → List IfAddr → Run Outputs
forward_hello rc my_mip ifaces = broadcast ifaces (
    first_bytes 7
      (hdr_bytes (create_mip_hdr 255 my_mip 1 (rc / 4 % 256) 0x04) ++ (b'H' ∷ b'L' ∷ b'O' ∷ [])))

-- The bytes of a forwarded update; its header counts bytes, not words.
unfoldable pub update_frame : UnixPacket → ℕ → List Byte
update_frame packet my_mip =
    let message_size = 4 + get_or packet.msg 3 0 * 2 in
    first_bytes (align4 (4 + message_size)) (
      hdr_bytes (create_mip_hdr packet.mip my_mip 1 message_size 0x04)
      ++ first_bytes message_size packet.msg)

-- An update goes to the neighbour that it names, which has to be in the cache.
unfoldable pub forward_update : UnixPacket → ℕ → List IfAddr → CacheTable → Run Outputs
unfolding update_frame
forward_update packet my_mip ifaces table = elim (check_cache packet.mip table) [
  | none ↦ failed
  | some cache_index ↦ cache_at table cache_index >>= λ entry.
      send_raw_packet ifaces entry.iface (update_frame packet my_mip) entry.mac >>= λ out.
      ret (out ∷ [])
]

unfoldable pub arp_request : ℕ → ℕ → List Byte
arp_request next_mip my_mip =
    first_bytes 8
      (hdr_bytes (create_mip_hdr 255 my_mip 1 4 0x01) ++ arp_bytes (create_arp_sdu next_mip true))

-- The bytes of a waiting packet that are sent.
unfoldable pub frame_of : RawPacket → List Byte
frame_of packet = first_bytes (align4 (packet.hdr.sdu_len * 4 + 4)) (packet_bytes packet)

-- A response to a request: the first waiting packet is sent to the next hop, or waits for ARP.
unfoldable pub forward_response : ℕ → ℕ → List IfAddr → Mip → Run (Mip × Outputs)
unfolding arp_request frame_of
forward_response next_mip my_mip ifaces m =
    let (packet, queue) = pop_waiting_queue m.routing_queue in
    if next_mip == 255 then ret (m, []) else elim (check_cache next_mip m.cache_table) [
      | none ↦ broadcast ifaces (arp_request next_mip my_mip) >>= λ out. ret (
        record m { routing_queue = queue; arp_queue = add_to_waiting_queue m.arp_queue packet },
        out,
      )
      | some cache_index ↦ cache_at m.cache_table cache_index >>= λ entry.
          send_raw_packet ifaces entry.iface (frame_of packet) entry.mac >>= λ out.
          ret (record m { routing_queue = queue }, out ∷ [])
    ]

-- With what `read` returned; the buffer is zero behind it.
unfoldable pub handle_routing_msg : Option (List Byte) → ℕ → List IfAddr → Mip → Run (Mip × Outputs)
unfolding forward_hello forward_update forward_response
handle_routing_msg none my_mip ifaces m = failed
handle_routing_msg (some buffer) my_mip ifaces m =
    let packet = of_bytes buffer in
    if starts_with3 packet.msg b'H' b'L' b'O'
    then (forward_hello (length buffer) my_mip ifaces >>= λ out. ret (m, out))
    else if starts_with3 packet.msg b'U' b'P' b'D'
    then (forward_update packet my_mip ifaces m.cache_table >>= λ out. ret (m, out))
    else if starts_with3 packet.msg b'R' b'E' b'S'
    then forward_response (get_or packet.msg 3 0) my_mip ifaces m
    else ret (m, [])

-- `send_arp_queue`: the packets whose destination is the address, all of which stay in the queue.
unfoldable pub send_waiting : List RawPacket → ℕ → List IfAddr → CacheTable → Run Outputs
send_waiting [] mip ifaces table = ret []
send_waiting (packet ∷ rest) mip ifaces table =
    let later = send_waiting rest mip ifaces table in
    if packet.hdr.dst == mip
    then elim (check_cache mip table) [
      | none ↦ failed
      | some index ↦ cache_at table index >>= λ entry.
          send_raw_packet ifaces entry.iface
            (first_bytes (4 + 4 * packet.hdr.sdu_len) (packet_bytes packet)) entry.mac
          >>= λ out. later >>= λ more. ret (out ∷ more)
    ]
    else later

unfoldable pub send_arp_queue : WaitingQueue → ℕ → List IfAddr → CacheTable → Run Outputs
unfolding send_waiting
send_arp_queue arp_queue mip ifaces table = send_waiting arp_queue.waiting mip ifaces table
