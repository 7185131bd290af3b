-- ===== src/Mip/Forward/Responses.antt =====
-- What waits for routes and for ARP: which packet a response sends, and which an ARP response.
use in_lib.Base.{
  ℕ, ◌+◌, ◌*◌, ◌≡◌, refl, ◌≢◌, List, [], ◌∷◌, none, some, ◌==◌, if◌then◌else◌, Bool-cases, inl, inr,
  ==-ne, Byte, first_bytes, ret, ◌>>=◌, arith,
}
use in_lib.Mip.Wire.{RawPacket, packet_bytes}
use in_lib.Mip.Queue.{WaitingQueue, add_to_waiting_queue, pop_waiting_queue}
use in_lib.Mip.Link.{
  IfAddr, CacheEntry, CacheTable, frame, Outputs, check_cache, cache_at, get_mac_from_index,
  send_raw_packet, broadcast,
}
use in_lib.Mip.Forward.{Mip, arp_request, frame_of, forward_response, send_waiting, send_arp_queue}

pop_some :
    (q : WaitingQueue) (p : RawPacket) (rest : List RawPacket)
    → q.waiting ≡ p ∷ rest
    → pop_waiting_queue q ≡ (p, record q { waiting = rest })
unfolding pop_waiting_queue
pop_some q p rest w = ground arith

-- A response without a route leaves the packet that it is about at the front of the queue. The
-- next response, whose next hop is in the cache and which is about the packet behind it, then
-- sends the front packet there.
pub response_after_no_route :
    (hop my_mip i : ℕ) (ifaces : List IfAddr) (m : Mip) (p q : RawPacket) (rest : List RawPacket)
    → (entry : CacheEntry) → m.routing_queue.waiting ≡ p ∷ q ∷ rest
    → hop ≢ 255
    → check_cache hop m.cache_table ≡ some i
    → cache_at m.cache_table i ≡ ret entry
    → (forward_response 255 my_mip ifaces m >>= λ a. forward_response hop my_mip ifaces a.0) ≡ (
        send_raw_packet ifaces entry.iface (frame_of p) entry.mac >>= λ out.
        ret (record m { routing_queue = record m.routing_queue { waiting = q ∷ rest } }, out ∷ []))
unfolding forward_response
response_after_no_route hop my_mip i ifaces m p q rest entry w ne c e =
    rw (forward_response, ==-ne hop 255 ne, c, e, pop_some m.routing_queue p (q ∷ rest) w) refl

-- A response with a next hop that is not in the cache and not the destination of the front packet
-- moves that packet to the empty ARP queue and broadcasts an ARP request for the next hop. The
-- packet waits in vain: the ARP response of the next hop sends nothing.
pub arp_wait_in_vain :
    (hop my_mip : ℕ) (ifaces : List IfAddr) (m : Mip) (p : RawPacket) (rest : List RawPacket)
    → m.routing_queue.waiting ≡ p ∷ rest
    → m.arp_queue.waiting ≡ []
    → hop ≢ 255
    → check_cache hop m.cache_table ≡ none
    → p.hdr.dst ≢ hop
    → (m' : Mip) × (forward_response hop my_mip ifaces m
        ≡ (broadcast ifaces (arp_request hop my_mip) >>= λ out. ret (m', out)))
      × (m'.routing_queue.waiting ≡ rest)
      × (m'.arp_queue.waiting ≡ p ∷ [])
      × ((table : CacheTable) → send_arp_queue m'.arp_queue hop ifaces table ≡ ret [])
unfolding forward_response add_to_waiting_queue send_arp_queue send_waiting
arp_wait_in_vain hop my_mip ifaces m p rest w a ne c d = (
  record m {
    routing_queue = record m.routing_queue { waiting = rest };
    arp_queue = add_to_waiting_queue m.arp_queue p;
  },
  rw (forward_response, ==-ne hop 255 ne, c, pop_some m.routing_queue p rest w) refl,
  refl,
  rw a refl,
  λ table. rw (a, send_waiting, ==-ne p.hdr.dst hop d) refl,
)

-- The frames for the waiting packets of one destination.
abbrev pub frames_for : ℕ → CacheEntry → List Byte → List RawPacket → Outputs
frames_for mip entry src [] = []
frames_for mip entry src (p ∷ rest) =
    let later = frames_for mip entry src rest in
    if p.hdr.dst == mip
    then frame (record {
      out_if = entry.iface;
      dst_addr = entry.mac;
      src_addr = src;
      eth_protocol = 0x88 ∷ 0xB5 ∷ [];
      contents = first_bytes (4 + 4 * p.hdr.sdu_len) (packet_bytes p);
    })
      ∷ later
    else later

send_waiting_lem :
    (mip i : ℕ) (ifaces : List IfAddr) (table : CacheTable) (entry : CacheEntry) (src : List Byte)
    → check_cache mip table ≡ some i
    → cache_at table i ≡ ret entry
    → get_mac_from_index entry.iface 1 ifaces ≡ ret src
    → (ps : List RawPacket) → send_waiting ps mip ifaces table ≡ ret (frames_for mip entry src ps)
unfolding send_waiting send_raw_packet
send_waiting_lem mip i ifaces table entry src c e s [] = refl
send_waiting_lem mip i ifaces table entry src c e s (p ∷ ps) =
    elim (Bool-cases (p.hdr.dst == mip)) [
      | inl hit ↦
          rw (hit, send_waiting, c, e, s, send_waiting_lem mip i ifaces table entry src c e s ps)
            refl
      | inr miss ↦
          rw (miss, send_waiting, send_waiting_lem mip i ifaces table entry src c e s ps) refl
    ]

-- For an address in the cache, over an interface whose own MAC address is found, the packets that
-- wait for that destination are sent to it, in the order in which they wait, and no others.
pub send_arp_queue_lem :
    (q : WaitingQueue) (mip i : ℕ) (ifaces : List IfAddr) (table : CacheTable)
    → (entry : CacheEntry) (src : List Byte) → check_cache mip table ≡ some i
    → cache_at table i ≡ ret entry
    → get_mac_from_index entry.iface 1 ifaces ≡ ret src
    → send_arp_queue q mip ifaces table ≡ ret (frames_for mip entry src q.waiting)
unfolding send_arp_queue
send_arp_queue_lem q mip i ifaces table entry src c e s =
    send_waiting_lem mip i ifaces table entry src c e s q.waiting
