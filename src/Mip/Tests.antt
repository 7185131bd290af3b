-- ===== src/Mip/Tests.antt =====
-- Concrete runs of the MIP daemon of host 10, which has one interface besides "lo".
use in_lib.Base.{
  ℕ, ◌<◌, ◌≡◌, refl, ◌⊎◌, inl, true, false, List, [], ◌∷◌, ◌++◌, none, some, drop, Byte, ret,
  failed, overrun, ◌>>=◌, arith,
}
use in_lib.Mip.Wire.{MipHdr, hdr_bytes, hdr_of, RawPacket}
use in_lib.Mip.Wire.RoundTrip.{IsHdr, hdr_of-hdr_bytes}
use in_lib.Mip.Queue.{WaitingQueue}
use in_lib.Mip.Queue.Fifo.{add_all, pop_all, pop_all-add_all}
use in_lib.Mip.Link.{
  IfAddr, CacheEntry, CacheTable, write, cache_table_len, check_cache, cache_at, get_mac_from_index,
  send_raw_packet, broadcast,
}
use in_lib.Mip.Link.CacheLaws.{IsCache}
use in_lib.Mip.Forward.{
  Mip, send_req_to_router, arp_request, frame_of, forward_response, send_arp_queue,
}
use in_lib.Mip.Forward.Responses.{
  frames_for, response_after_no_route, arp_wait_in_vain, send_arp_queue_lem,
}
use in_lib.Mip.Daemon.{
  PollFd, zero_fd, Received, handle_new_client, recv_raw_packet, pass_on, receive_client,
  dispatch_raw,
}
use in_lib.Mip.Daemon.Slots.{recv_raw_packet_lem}
use in_lib.Mip.Daemon.Transit.{enqueue, pass_on_lem}
use in_lib.Mip.Daemon.Clients.{arrives, client_to_client}

abbrev mac_a : List Byte
mac_a = 2 ∷ 0 ∷ 0 ∷ 0 ∷ 0 ∷ 1 ∷ []

abbrev mac_b : List Byte
mac_b = 2 ∷ 0 ∷ 0 ∷ 0 ∷ 0 ∷ 2 ∷ []

abbrev ifaces : List IfAddr
ifaces =
    record { af_packet = true; is_lo = true; ifindex = 1; sll_addr = 0 ∷ [] }
    ∷ record { af_packet = true; is_lo = false; ifindex = 2; sll_addr = mac_a }
    ∷ []

abbrev twenty : CacheEntry
twenty = record { mip = 20; iface = 2; mac = mac_b }

abbrev hdr : MipHdr
hdr = record { dst = 40; src = 10; ttl = 3; sdu_len = 1; sdu_type = 5 }

abbrev packet_40 : RawPacket
packet_40 = record { hdr = hdr; sdu = 1 ∷ 2 ∷ 3 ∷ 4 ∷ [] }

abbrev packet_20 : RawPacket
packet_20 = record { hdr = record hdr { dst = 20 }; sdu = 5 ∷ 6 ∷ 7 ∷ 8 ∷ [] }

abbrev queue : WaitingQueue
queue = record { head = packet_40; waiting = packet_40 ∷ packet_20 ∷ [] }

abbrev no_packets : WaitingQueue
no_packets = record { head = packet_40; waiting = [] }

abbrev daemon : Mip
daemon = record { cache_table = twenty ∷ []; routing_queue = queue; arp_queue = no_packets }

-- No slot of `fds` is taken, but for the two of the pending clients.
abbrev slot : ℕ → PollFd
slot fd = record zero_fd { fd = fd }

abbrev fds : List PollFd
fds = slot 3 ∷ slot 4 ∷ slot 5 ∷ slot 6 ∷ slot 7 ∷ slot 0 ∷ slot 0 ∷ []

abbrev from_30 : Received
from_30 = record {
  payload = hdr_bytes (record { dst = 10; src = 30; ttl = 1; sdu_len = 1; sdu_type = 1 });
  senders_iface = 2;
  src_addr = mac_b;
}

hdr-IsHdr : IsHdr hdr
hdr-IsHdr = omega arith

hdr_of-hdr_bytes_example : hdr_of (hdr_bytes hdr ++ (1 ∷ [])) ≡ hdr
hdr_of-hdr_bytes_example = hdr_of-hdr_bytes hdr (1 ∷ []) hdr-IsHdr

pop_all-add_all_example :
    pop_all (packet_40 ∷ packet_20 ∷ packet_20 ∷ []) (add_all queue (packet_20 ∷ []))
    ≡ (packet_40 ∷ packet_20 ∷ packet_20 ∷ [], no_packets)
pop_all-add_all_example = pop_all-add_all queue (packet_20 ∷ [])

check_cache_20 : check_cache 20 (twenty ∷ []) ≡ some 0
unfolding check_cache
check_cache_20 = refl

cache_at_0 : cache_at (twenty ∷ []) 0 ≡ ret twenty
unfolding cache_at
cache_at_0 = refl

check_cache_30 : check_cache 30 (twenty ∷ []) ≡ none
unfolding check_cache
check_cache_30 = refl

response_after_no_route_example :
    (forward_response 255 10 ifaces daemon >>= λ a. forward_response 20 10 ifaces a.0) ≡ (
      send_raw_packet ifaces 2 (frame_of packet_40) mac_b >>= λ out.
      ret (record daemon { routing_queue = record queue { waiting = packet_20 ∷ [] } }, out ∷ []))
response_after_no_route_example =
    response_after_no_route 20 10 0 ifaces daemon packet_40 packet_20 [] twenty refl (omega arith)
      check_cache_20 cache_at_0

arp_wait_in_vain_example :
    (m' : Mip) × (forward_response 30 10 ifaces daemon
      ≡ (broadcast ifaces (arp_request 30 10) >>= λ out. ret (m', out)))
    × (m'.routing_queue.waiting ≡ packet_20 ∷ [])
    × (m'.arp_queue.waiting ≡ packet_40 ∷ [])
    × ((table : CacheTable) → send_arp_queue m'.arp_queue 30 ifaces table ≡ ret [])
arp_wait_in_vain_example =
    arp_wait_in_vain 30 10 ifaces daemon packet_40 (packet_20 ∷ []) refl refl (omega arith)
      check_cache_30 (omega arith)

get_mac_2 : get_mac_from_index 2 1 ifaces ≡ ret mac_a
unfolding get_mac_from_index
get_mac_2 = refl

send_arp_queue_lem_example :
    send_arp_queue queue 20 ifaces (twenty ∷ [])
    ≡ ret (frames_for 20 twenty mac_a (packet_40 ∷ packet_20 ∷ []))
send_arp_queue_lem_example =
    send_arp_queue_lem queue 20 0 ifaces (twenty ∷ []) twenty mac_a check_cache_20 cache_at_0
      get_mac_2

-- Two clients wait for their first byte, and a third comes: its slot is searched behind `fds`.
third_client :
    (handle_new_client 8 fds >>= λ one. handle_new_client 9 one >>= handle_new_client 10) ≡ overrun
unfolding handle_new_client
third_client = refl

daemon-IsCache : IsCache (twenty ∷ [])
daemon-IsCache = ground arith

recv_raw_packet_lem_example :
    ((t' : CacheTable) × (i : ℕ) × (recv_raw_packet from_30 (twenty ∷ []) ≡ ret t')
      × IsCache t'
      × (check_cache (hdr_of from_30.payload).src t' ≡ some i))
    ⊎ ((recv_raw_packet from_30 (twenty ∷ []) ≡ failed)
        × (check_cache (hdr_of from_30.payload).src (twenty ∷ []) ≡ none)
        × (1 ≡ cache_table_len))
recv_raw_packet_lem_example = recv_raw_packet_lem from_30 (twenty ∷ []) daemon-IsCache

pass_on_lem_example :
    let r : Received = record {
      payload = hdr_bytes hdr ++ (1 ∷ 2 ∷ 3 ∷ 4 ∷ []);
      senders_iface = 2;
      src_addr = mac_b;
    } in
    ((hdr.ttl ≡ 0) × (pass_on r 20 6 [] daemon ≡ (daemon, [])))
    ⊎ ((0 < hdr.ttl)
        × (p : RawPacket) × (pass_on r 20 6 [] daemon
            ≡ (enqueue daemon p, send_req_to_router 20 40 6 ∷ []))
        × (p.hdr ≡ record hdr { ttl = 2 })
        × (frame_of p ≡ hdr_bytes (record hdr { ttl = 2 }) ++ (1 ∷ 2 ∷ 3 ∷ 4 ∷ [])))
pass_on_lem_example = pass_on_lem hdr (1 ∷ 2 ∷ 3 ∷ 4 ∷ []) [] 2 mac_b 20 6 daemon hdr-IsHdr refl

-- A ping to host 40, which comes out in slot 4 there.
abbrev ping : List Byte
ping = 40 ∷ 0 ∷ b'P' ∷ b'I' ∷ b'N' ∷ b'G' ∷ b':' ∷ b'x' ∷ []

client_to_client_example :
    (p : RawPacket) × (receive_client (some ping) 2 10 6 [] daemon
      ≡ ret (enqueue daemon p, send_req_to_router 10 40 6 ∷ []))
    × (p.hdr.sdu_type ≡ 5)
    × (dispatch_raw (arrives (frame_of p) 2 mac_b) 40 ifaces [] fds daemon
        ≡ ret (daemon, write 7 (10 ∷ 0 ∷ drop 2 ping) ∷ []))
client_to_client_example =
    client_to_client ping [] [] mac_b 2 10 6 2 daemon daemon ifaces fds 6 (inl refl) refl refl
      (omega arith) (omega arith) (omega arith)
