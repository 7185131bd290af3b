-- ===== src/Network/Updates.antt =====
-- A routing update on its way: routing_utils.c at the sender, mip_daemon_utils.c below it,
-- mip_daemon.c at the neighbour.
use in_lib.Base.{
  ℕ, ◌+◌, ◌-◌, ◌*◌, ◌%◌, ◌≤◌, ◌<◌, ◌≡◌, ap, ◌∙◌, ◌≢◌, true, List, [], ◌∷◌, ◌++◌, length, get_or,
  Byte, first_bytes, align4, starts_with3, get_or-first_bytes, first_bytes_split, ret, arith,
}
use in_lib.Packet.{UnixPacket, to_bytes, of_bytes, get_or-msg, mip-of_bytes}
use in_lib.Routing.Table.{Node, RoutingList}
use in_lib.Routing.Update.{announced}
use in_lib.Routing.Advertise.{update_for}
use in_lib.Routing.Advertise.Decode.{advert, announced_agree, update_for_lem}
use in_lib.Mip.Wire.{MipHdr, create_mip_hdr, hdr_bytes}
use in_lib.Mip.Wire.RoundTrip.{create_mip_hdr-IsHdr, hdr_of-hdr_bytes}
use in_lib.Mip.Link.{IfAddr, write}
use in_lib.Mip.Forward.{Mip, write_to_unix_socket, update_frame}
use in_lib.Mip.Daemon.{PollFd, zero_fd, dispatch_raw}
use in_lib.Mip.Daemon.Transit.{drop4-hdr_bytes}
use in_lib.Mip.Daemon.Clients.{arrives}

module _ (packet : UnixPacket) (my_mip n : ℕ) (count : get_or packet.msg 3 0 ≡ n) where
  abbrev update_hdr : MipHdr
  update_hdr = create_mip_hdr packet.mip my_mip 1 (4 + n * 2) 0x04

  abbrev body : List Byte
  body = first_bytes (align4 (4 + (4 + n * 2)) - 4) (first_bytes (4 + n * 2) packet.msg)

  update_frame-eq : update_frame packet my_mip ≡ hdr_bytes update_hdr ++ body
  unfolding update_frame hdr_bytes
  update_frame-eq =
      rw (count, update_frame)
        (first_bytes_split (hdr_bytes update_hdr) (first_bytes (4 + n * 2) packet.msg)
          (align4 (4 + (4 + n * 2))) (align4 (4 + (4 + n * 2)) - 4) (ground arith))

  -- What the neighbour's MIP daemon writes to its routing daemon.
  abbrev handed_up : ℕ → List Byte
  handed_up size =
      first_bytes (align4 (2 + size))
        (to_bytes (record { mip = update_hdr.src; ttl = 0; msg = first_bytes size body }))

  routing_frame :
      (addr iface socket : ℕ) (mac stack : List Byte) (ifaces : List IfAddr)
      → (fds : List PollFd) (m : Mip) → (get_or fds 3 zero_fd).fd ≡ socket
      → socket ≢ 0
      → dispatch_raw (arrives (update_frame packet my_mip) iface mac) addr ifaces stack fds m
        ≡ ret (m, write socket (handed_up (update_hdr.sdu_len * 4 % 256)) ∷ [])
  unfolding dispatch_raw write_to_unix_socket create_mip_hdr
  routing_frame addr iface socket mac stack ifaces fds m e ne =
      ap (λ f. dispatch_raw (arrives f iface mac) addr ifaces stack fds m) update_frame-eq
      ∙ ground (
        arith,
        hdr_of-hdr_bytes update_hdr body
            (create_mip_hdr-IsHdr packet.mip my_mip 1 (4 + n * 2) 0x04),
        drop4-hdr_bytes update_hdr body,
      )

  -- As long as `4 * (4 + 2 * n)` fits in the `uint8_t` size, all the pairs are handed up.
  handed_up_msg :
      (i : ℕ)
      → n ≤ 29
      → i < 4 + 2 * n
      → get_or (of_bytes (handed_up (update_hdr.sdu_len * 4 % 256))).msg i 0 ≡ get_or packet.msg i 0
  unfolding create_mip_hdr
  handed_up_msg i few h =
      let size : ℕ = update_hdr.sdu_len * 4 % 256 in
      let large : 4 + 2 * n ≤ size = omega arith in
      get_or-msg (record { mip = update_hdr.src; ttl = 0; msg = first_bytes size body })
        (align4 (2 + size)) i (ground arith)
      ∙ get_or-first_bytes size i body (omega arith)
      ∙ get_or-first_bytes (align4 (4 + (4 + n * 2)) - 4) i (first_bytes (4 + n * 2) packet.msg)
          (ground arith)
      ∙ get_or-first_bytes (4 + n * 2) i packet.msg (omega arith)

-- An update for a neighbour, of at most 29 pairs out of a table of at most 123 nodes, reaches the
-- neighbour's routing daemon, if that is connected: its MIP daemon hands up one packet, which
-- names the sending host of an 8-bit address and announces the sender's table with split horizon
-- and poisoned reverse.
pub update_reaches_neighbour :
    (to : Node) (t : RoutingList) (my_mip addr iface socket : ℕ) (mac stack : List Byte)
    → (ifaces : List IfAddr) (fds : List PollFd) (m : Mip) → length t ≤ 123
    → length (advert to t) ≤ 29
    → my_mip < 256
    → (get_or fds 3 zero_fd).fd ≡ socket
    → socket ≢ 0
    → let sent = of_bytes (update_for to t) in
      (up : List Byte) × (dispatch_raw
          (arrives (update_frame sent my_mip) iface mac)
          addr
          ifaces
          stack
          fds
          m
        ≡ ret (m, write socket up ∷ []))
      × ((of_bytes up).mip ≡ my_mip)
      × (starts_with3 (of_bytes up).msg b'U' b'P' b'D' ≡ true)
      × (announced (of_bytes up) ≡ advert to t)
unfolding create_mip_hdr
update_reaches_neighbour to t my_mip addr iface socket mac stack ifaces fds m short few mine e ne =
    let sent = of_bytes (update_for to t) in
    let (_, word, count, pairs) = update_for_lem to t short in
    let n : ℕ = length (advert to t) in
    let up = handed_up sent my_mip n count ((update_hdr sent my_mip n count).sdu_len * 4 % 256) in
    let at = λ (i : ℕ) (h : i < 4 + 2 * n). handed_up_msg sent my_mip n count i few h in
    (
      up,
      routing_frame sent my_mip n count addr iface socket mac stack ifaces fds m e ne,
      mip-of_bytes _ (align4 (2 + (update_hdr sent my_mip n count).sdu_len * 4 % 256))
            (ground arith)
          ∙ omega arith,
      rw (at 0 (omega arith), at 1 (omega arith), at 2 (omega arith)) word,
      announced_agree (of_bytes up) sent n (at 3 (omega arith) ∙ count) at ∙ pairs,
    )
