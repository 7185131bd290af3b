-- ===== src/Mip/Daemon/Bounds.antt =====
-- mip_daemon.c: the branches of `poll_loop` keep the arrays, the cache and the queues well-formed.
use in_lib.Base.{
  ℕ, zero, suc, ◌+◌, ◌-◌, ◌*◌, ◌%◌, ◌≡◌, ◌∙◌, inl, inr, not, ◌&&◌, ◌||◌, List, Option, none, some,
  ltb, ◌==◌, length, get_or, get_elem?, set, length-set, drop, Byte, Bool-cases, Option-cases, Ends,
  Ends->>=, Ends-if, bufsize, arith,
}
use in_lib.Mip.Wire.{hdr_of, arp_of, create_mip_hdr, hdr_bytes, arp_bytes}
use in_lib.Mip.Link.{IfAddr, CacheTable, check_cache, cache_at}
use in_lib.Mip.Link.CacheLaws.{IsCache, cache-IsCache}
use in_lib.Mip.Forward.{Mip, send_req_to_router, write_to_unix_socket}
use in_lib.Mip.Forward.Bounds.{
  IsMip, Keeps, add_to_waiting_queue-IsQueue, send_arp_queue-Short, same_mip,
}
use in_lib.Mip.Link.Bounds.{AllShort, send_one-Short}
use in_lib.Mip.Daemon.{
  PollFd, zero_fd, num_fds, Received, place_client, handle_new_client, identify_unix_client,
  move_fd, recv_raw_packet, receive_arp, deliver, pass_on, dispatch_raw, receive_raw,
  receive_client,
}

-- `fds` has its seven slots.
abbrev pub IsFds : List PollFd → Type 0
IsFds fds = length fds ≡ num_fds

pub handle_new_client-IsFds :
    (client_fd : ℕ) (fds : List PollFd) → IsFds fds → Ends IsFds (handle_new_client client_fd fds)
unfolding handle_new_client place_client
handle_new_client-IsFds client_fd fds h = from 5 5
  where
    from : (more slot : ℕ) → Ends IsFds (place_client more slot client_fd fds)
    from zero slot = h
    from (suc more) slot =
        let next = from more (slot + 1) in
        elim (Bool-cases (ltb slot num_fds)) [
          | inr outside ↦ rw (place_client, outside) tt
          | inl inside ↦ elim (Bool-cases ((get_or fds slot zero_fd).fd == 0)) [
            | inl free ↦ rw (place_client, inside, free) (length-set fds slot _ ∙ h)
            | inr taken ↦ rw (place_client, inside, taken) next
          ]
        ]

move_fd-IsFds : (to index : ℕ) (fds : List PollFd) → IsFds fds → IsFds (move_fd to index fds)
move_fd-IsFds to index fds h =
    length-set (set fds to (get_or fds index zero_fd)) index zero_fd ∙ length-set fds to _ ∙ h

pub identify_unix_client-IsFds :
    (identifier : Byte) (index : ℕ) (fds : List PollFd)
    → IsFds fds
    → IsFds (identify_unix_client identifier index fds)
unfolding identify_unix_client
identify_unix_client-IsFds identifier index fds h = elim (Bool-cases (identifier == 0x02)) [
  | inl ping ↦ rw (identify_unix_client, ping) (move_fd-IsFds 2 index fds h)
  | inr other ↦ elim (Bool-cases (identifier == 0x04)) [
    | inl routing ↦ rw (identify_unix_client, other, routing) (move_fd-IsFds 3 index fds h)
    | inr other' ↦ elim (Bool-cases (identifier == 0x05)) [
      | inl miptp ↦ rw (identify_unix_client, other, other', miptp) (move_fd-IsFds 4 index fds h)
      | inr unknown ↦ rw (identify_unix_client, other, other', unknown) h
    ]
  ]
]

recv_raw_packet-IsCache :
    (r : Received) (t : CacheTable) → IsCache t → Ends IsCache (recv_raw_packet r t)
unfolding recv_raw_packet
recv_raw_packet-IsCache r t v =
    let src = (hdr_of r.payload).src in
    elim (Option-cases (check_cache src t)) [
      | inl new ↦ rw (recv_raw_packet, new) (cache-IsCache src r.senders_iface r.src_addr t new v)
      | inr (i, known) ↦ rw (recv_raw_packet, known) v
    ]

receive_arp-Short :
    (r : Received) (mip_addr : ℕ) (ifaces : List IfAddr) (m : Mip)
    → IsMip m
    → Ends AllShort (receive_arp r mip_addr ifaces m)
unfolding receive_arp cache_at hdr_bytes arp_bytes
receive_arp-Short r mip_addr ifaces m v =
    let sdu = arp_of (drop 4 r.payload) in
    elim (Bool-cases (sdu.type == 0)) [
      | inr response ↦
          rw (receive_arp, response)
            (send_arp_queue-Short m.arp_queue sdu.address ifaces m.cache_table v.arp)
      | inl request ↦ elim (Bool-cases (sdu.address == mip_addr)) [
        | inr other ↦ rw (receive_arp, request, other) tt
        | inl mine ↦ elim (Option-cases (check_cache (hdr_of r.payload).src m.cache_table)) [
          | inl absent ↦ rw (receive_arp, request, mine, absent) tt
          | inr (i, known) ↦ elim (Option-cases (get_elem? m.cache_table i)) [
            | inl outside ↦ rw (receive_arp, request, mine, known, cache_at, outside) tt
            | inr (entry, inside) ↦
                rw (receive_arp, request, mine, known, cache_at, inside)
                  (send_one-Short ifaces r.senders_iface _ entry.mac (omega arith))
          ]
        ]
      ]
    ]

pass_on-Keeps :
    (r : Received) (mip_addr router : ℕ) (stack : List Byte) (m : Mip)
    → IsMip m
    → Keeps (pass_on r mip_addr router stack m)
unfolding pass_on hdr_of send_req_to_router
pass_on-Keeps r mip_addr router stack m v =
    let hdr = hdr_of r.payload in
    elim (Bool-cases (hdr.ttl == 0)) [
      | inl spent ↦ rw (pass_on, spent) (v, tt)
      | inr alive ↦ elim (Bool-cases (ltb 0 (hdr.ttl - 1) || not (hdr.ttl - 1 == 15))) [
        | inr never ↦ rw (pass_on, alive, never) (v, tt)
        | inl always ↦
            rw (pass_on, alive, always)
              (
                record {
                  table = v.table;
                  routing = add_to_waiting_queue-IsQueue m.routing_queue _ v.routing (omega arith);
                  arp = v.arp;
                },
                (tt, tt),
              )
      ]
    ]

write-AllShort :
    (msg : List Byte) (size mip socket ttl : ℕ)
    → AllShort (write_to_unix_socket msg size mip socket ttl)
unfolding write_to_unix_socket
write-AllShort msg size mip socket ttl = elim (Bool-cases (socket == 0)) [
  | inl closed ↦ rw (write_to_unix_socket, closed) tt
  | inr there ↦ rw (write_to_unix_socket, there) (tt, tt)
]

dispatch_raw-Keeps :
    (r : Received) (mip_addr : ℕ) (ifaces : List IfAddr) (stack : List Byte) (fds : List PollFd)
    (m : Mip)
    → IsMip m
    → Ends Keeps (dispatch_raw r mip_addr ifaces stack fds m)
unfolding dispatch_raw deliver
dispatch_raw-Keeps r mip_addr ifaces stack fds m v =
    let hdr = hdr_of r.payload in
    let arp = same_mip m _ v (receive_arp-Short r mip_addr ifaces m v) in
    let passed = pass_on-Keeps r mip_addr (get_or fds 3 zero_fd).fd stack m v in
    let to_router : AllShort (
        write_to_unix_socket (drop 4 r.payload) (hdr.sdu_len * 4 % 256) hdr.src
          (get_or fds 3 zero_fd).fd 0) =
      write-AllShort (drop 4 r.payload) (hdr.sdu_len * 4 % 256) hdr.src (get_or fds 3 zero_fd).fd
        0 in
    let ping = hdr.sdu_type == 0x02 in
    let miptp = hdr.sdu_type == 0x05 in
    let mine = hdr.dst == mip_addr in
    Ends-if Keeps (hdr.sdu_type == 0x01) _ _ arp (
      Ends-if Keeps (ping && mine) _ _ (v, (tt, tt))
        (Ends-if Keeps (miptp && mine) _ _ (v, (tt, tt))
          (Ends-if Keeps ((ping || miptp) && not mine) _ _ passed
            (Ends-if Keeps (hdr.sdu_type == 0x04) _ _ (v, to_router) (v, tt)))))

pub receive_raw-Keeps :
    (received : Option Received) (mip_addr : ℕ) (ifaces : List IfAddr) (stack : List Byte)
    (fds : List PollFd) (m : Mip)
    → IsMip m
    → Ends Keeps (receive_raw received mip_addr ifaces stack fds m)
unfolding receive_raw
receive_raw-Keeps none mip_addr ifaces stack fds m v = tt
receive_raw-Keeps (some r) mip_addr ifaces stack fds m v =
    Ends->>= IsCache Keeps _ _ (recv_raw_packet-IsCache r m.cache_table v.table) (λ table cache.
      dispatch_raw-Keeps r mip_addr ifaces stack fds (record m { cache_table = table })
        (record { table = cache; routing = v.routing; arp = v.arp }))

pub receive_client-Keeps :
    (reads : Option (List Byte)) (i mip_addr router : ℕ) (stack : List Byte) (m : Mip)
    → IsMip m
    → Ends Keeps (receive_client reads i mip_addr router stack m)
unfolding receive_client create_mip_hdr send_req_to_router
receive_client-Keeps none i mip_addr router stack m v = tt
receive_client-Keeps (some buffer) i mip_addr router stack m v =
    elim (Bool-cases (ltb (bufsize - 2) (length buffer))) [
      | inl long ↦ rw (receive_client, long) tt
      | inr fits ↦
          rw (receive_client, fits)
            (
              record {
                table = v.table;
                routing = add_to_waiting_queue-IsQueue m.routing_queue _ v.routing (omega arith);
                arp = v.arp;
              },
              (tt, tt),
            )
    ]
