-- ===== src/Mip/Forward/Bounds.antt =====
-- mip_daemon_utils.c: how long the frames are that are sent, and what the queues hold.
use in_lib.Base.{
  ℕ, ◌+◌, ◌*◌, ◌≤◌, ◌<◌, inl, inr, List, [], ◌∷◌, ◌++◌, Option, none, some, ◌==◌, length, get_or,
  get_elem?, Byte, first_bytes, length-first_bytes, align4, starts_with3, Bool-cases, Option-cases,
  drop, get_or-byte, All-drop, All, All-append, Run, ret, ◌>>=◌, Ends, Ends->>=, arith,
}
use in_lib.Packet.{UnixPacket, of_bytes}
use in_lib.Mip.Wire.{RawPacket, packet_bytes, hdr_bytes, arp_bytes, create_mip_hdr}
use in_lib.Mip.Queue.{WaitingQueue, add_to_waiting_queue, pop_waiting_queue}
use in_lib.Mip.Link.{IfAddr, CacheTable, Outputs, check_cache, cache_at}
use in_lib.Mip.Link.CacheLaws.{IsCache}
use in_lib.Mip.Link.Bounds.{
  max_frame, Short, AllShort, send_raw_packet-Short, send_one-Short, broadcast-Short,
}
use in_lib.Mip.Forward.{
  Mip, update_frame, forward_hello, forward_update, arp_request, frame_of, forward_response,
  handle_routing_msg, send_waiting, send_arp_queue,
}

abbrev pub Fits : RawPacket → Type 0
Fits p = p.hdr.sdu_len < 512

pub record IsQueue (q : WaitingQueue) : Type 0 where
  pub head_fits : Fits q.head
  pub all_fit : All Fits q.waiting

pub record IsMip (m : Mip) : Type 0 where
  pub table : IsCache m.cache_table
  pub routing : IsQueue m.routing_queue
  pub arp : IsQueue m.arp_queue

abbrev pub Keeps : Mip × Outputs → Type 0
Keeps r = IsMip r.0 × AllShort r.1

pub add_to_waiting_queue-IsQueue :
    (q : WaitingQueue) (p : RawPacket) → IsQueue q → Fits p → IsQueue (add_to_waiting_queue q p)
unfolding add_to_waiting_queue
add_to_waiting_queue-IsQueue q p v fits = record {
  head_fits = v.head_fits;
  all_fit = All-append Fits q.waiting (p ∷ []) v.all_fit (fits, tt);
}

pop_waiting_queue-IsQueue :
    (q : WaitingQueue) → IsQueue q → Fits (pop_waiting_queue q).0 × IsQueue (pop_waiting_queue q).1
unfolding pop_waiting_queue
pop_waiting_queue-IsQueue q v = by_waiting q.head q.waiting v.head_fits v.all_fit
  where
    by_waiting :
        (head : RawPacket) (waiting : List RawPacket)
        → Fits head
        → All Fits waiting
        → let popped = pop_waiting_queue (record { head = head; waiting = waiting }) in
          Fits popped.0 × IsQueue popped.1
    by_waiting head [] h all = (h, record { head_fits = h; all_fit = tt })
    by_waiting head (first ∷ rest) h all = (all.0, record { head_fits = h; all_fit = all.1 })

pub frame_of-bound : (p : RawPacket) → Fits p → length (frame_of p) ≤ max_frame
unfolding frame_of
frame_of-bound p fits =
    ground (arith, length-first_bytes (align4 (p.hdr.sdu_len * 4 + 4)) (packet_bytes p))

update_frame-bound :
    (packet : UnixPacket) (my_mip : ℕ)
    → get_or packet.msg 3 0 < 256
    → length (update_frame packet my_mip) ≤ max_frame
unfolding update_frame
update_frame-bound packet my_mip byte = ground (
  arith,
  length-first_bytes (align4 (4 + (4 + get_or packet.msg 3 0 * 2))) (
      hdr_bytes (create_mip_hdr packet.mip my_mip 1 (4 + get_or packet.msg 3 0 * 2) 0x04)
      ++ first_bytes (4 + get_or packet.msg 3 0 * 2) packet.msg),
)

forward_update-Short :
    (packet : UnixPacket) (my_mip : ℕ) (ifaces : List IfAddr) (table : CacheTable)
    → get_or packet.msg 3 0 < 256
    → Ends AllShort (forward_update packet my_mip ifaces table)
unfolding forward_update cache_at
forward_update-Short packet my_mip ifaces table byte =
    elim (Option-cases (check_cache packet.mip table)) [
      | inl absent ↦ rw (forward_update, absent) tt
      | inr (i, known) ↦ elim (Option-cases (get_elem? table i)) [
        | inl outside ↦ rw (forward_update, known, cache_at, outside) tt
        | inr (entry, inside) ↦
            rw (forward_update, known, cache_at, inside)
              (send_one-Short ifaces entry.iface (update_frame packet my_mip) entry.mac
                (update_frame-bound packet my_mip byte))
      ]
    ]

forward_response-Keeps :
    (next_mip my_mip : ℕ) (ifaces : List IfAddr) (m : Mip)
    → IsMip m
    → Ends Keeps (forward_response next_mip my_mip ifaces m)
unfolding forward_response cache_at hdr_bytes arp_bytes
forward_response-Keeps next_mip my_mip ifaces m v =
    let popped = pop_waiting_queue m.routing_queue in
    let (fits, rest) = pop_waiting_queue-IsQueue m.routing_queue v.routing in
    elim (Bool-cases (next_mip == 255)) [
      | inl no_route ↦ rw (forward_response, no_route) (v, tt)
      | inr route ↦ elim (Option-cases (check_cache next_mip m.cache_table)) [
        | inl absent ↦
            rw (forward_response, route, absent)
              (Ends->>= AllShort Keeps _ _
                (broadcast-Short ifaces (arp_request next_mip my_mip) (omega arith))
                (λ out short. (
                  record {
                    table = v.table;
                    routing = rest;
                    arp = add_to_waiting_queue-IsQueue m.arp_queue popped.0 v.arp fits;
                  },
                  short,
                )))
        | inr (i, known) ↦ elim (Option-cases (get_elem? m.cache_table i)) [
          | inl outside ↦ rw (forward_response, route, known, cache_at, outside) tt
          | inr (entry, inside) ↦
              rw (forward_response, route, known, cache_at, inside)
                (Ends->>= Short Keeps _ _
                  (send_raw_packet-Short ifaces entry.iface (frame_of popped.0) entry.mac
                    (frame_of-bound popped.0 fits))
                  (λ out short.
                    (record { table = v.table; routing = rest; arp = v.arp }, (short, tt))))
        ]
      ]
    ]

hello-Short :
    (rc my_mip : ℕ) (ifaces : List IfAddr) → Ends AllShort (forward_hello rc my_mip ifaces)
unfolding forward_hello hdr_bytes
hello-Short rc my_mip ifaces = broadcast-Short ifaces _ (omega arith)

abbrev pub IsBytes : Option (List Byte) → Type 0
IsBytes none = Unit
IsBytes (some bytes) = All (λ b. b < 256) bytes

-- What the branches for hellos and updates return.
pub same_mip :
    (m : Mip) (r : Run Outputs) → IsMip m → Ends AllShort r → Ends Keeps (r >>= λ out. ret (m, out))
same_mip m r v h = Ends->>= AllShort Keeps r _ h (λ out short. (v, short))

pub handle_routing_msg-Keeps :
    (reads : Option (List Byte)) (my_mip : ℕ) (ifaces : List IfAddr) (m : Mip)
    → IsBytes reads
    → IsMip m
    → Ends Keeps (handle_routing_msg reads my_mip ifaces m)
unfolding handle_routing_msg
handle_routing_msg-Keeps none my_mip ifaces m bytes v = tt
handle_routing_msg-Keeps (some buffer) my_mip ifaces m bytes v =
    let packet = of_bytes buffer in
    elim (Bool-cases (starts_with3 packet.msg b'H' b'L' b'O')) [
      | inl hello ↦
          rw (handle_routing_msg, hello)
            (same_mip m _ v (hello-Short (length buffer) my_mip ifaces))
      | inr other ↦ elim (Bool-cases (starts_with3 packet.msg b'U' b'P' b'D')) [
        | inl update ↦
            rw (handle_routing_msg, other, update)
              (same_mip m _ v (
                forward_update-Short packet my_mip ifaces m.cache_table
                  (get_or-byte (drop 2 buffer) 3 (All-drop _ 2 buffer bytes))))
        | inr other' ↦ elim (Bool-cases (starts_with3 packet.msg b'R' b'E' b'S')) [
          | inl response ↦
              rw (handle_routing_msg, other, other', response)
                (forward_response-Keeps (get_or packet.msg 3 0) my_mip ifaces m v)
          | inr unknown ↦ rw (handle_routing_msg, other, other', unknown) (v, tt)
        ]
      ]
    ]

send_waiting-Short :
    (waiting : List RawPacket) (mip : ℕ) (ifaces : List IfAddr) (table : CacheTable)
    → All Fits waiting
    → Ends AllShort (send_waiting waiting mip ifaces table)
unfolding send_waiting cache_at
send_waiting-Short [] mip ifaces table all = tt
send_waiting-Short (packet ∷ rest) mip ifaces table all =
    let later = send_waiting-Short rest mip ifaces table all.1 in
    let size : ℕ = 4 + 4 * packet.hdr.sdu_len in
    elim (Bool-cases (packet.hdr.dst == mip)) [
      | inr other ↦ rw (send_waiting, other) later
      | inl hit ↦ elim (Option-cases (check_cache mip table)) [
        | inl absent ↦ rw (send_waiting, hit, absent) tt
        | inr (i, known) ↦ elim (Option-cases (get_elem? table i)) [
          | inl outside ↦ rw (send_waiting, hit, known, cache_at, outside) tt
          | inr (entry, inside) ↦
              rw (send_waiting, hit, known, cache_at, inside)
                (Ends->>= Short AllShort _ _
                  (send_raw_packet-Short ifaces entry.iface (first_bytes size (packet_bytes packet))
                    entry.mac (omega (arith, all.0, length-first_bytes size (packet_bytes packet))))
                  (λ out short.
                    Ends->>= AllShort AllShort _ _ later (λ more shorts. (short, shorts))))
        ]
      ]
    ]

pub send_arp_queue-Short :
    (q : WaitingQueue) (mip : ℕ) (ifaces : List IfAddr) (table : CacheTable)
    → IsQueue q
    → Ends AllShort (send_arp_queue q mip ifaces table)
unfolding send_arp_queue
send_arp_queue-Short q mip ifaces table v = send_waiting-Short q.waiting mip ifaces table v.all_fit
