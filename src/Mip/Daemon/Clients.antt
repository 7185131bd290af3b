-- ===== src/Mip/Daemon/Clients.antt =====
-- A message of an upper client, from the socket of its host to the socket at its destination.
use in_lib.Base.{
  ℕ, ◌+◌, ◌*◌, ◌/◌, ◌%◌, ◌<◌, ◌≡◌, refl, sym, ap, ◌∙◌, ◌⊎◌, inl, inr, List, [], ◌∷◌, ◌++◌, some,
  ◌==◌, if◌then◌else◌, length, get_or, drop, Byte, first_bytes, overlay, length-first_bytes,
  length-drop, first_bytes-first_bytes, first_bytes_self, first_two, ret, arith,
}
use in_lib.Packet.{default_ttl}
use in_lib.Mip.Wire.{MipHdr, create_mip_hdr, hdr_bytes, RawPacket}
use in_lib.Mip.Wire.RoundTrip.{IsHdr, create_mip_hdr-IsHdr, hdr_of-hdr_bytes}
use in_lib.Mip.Link.{IfAddr, write}
use in_lib.Mip.Forward.{Mip, send_req_to_router, frame_of}
use in_lib.Mip.Forward.Delivery.{frame_of_lem}
use in_lib.Mip.Daemon.{PollFd, zero_fd, Received, deliver, dispatch_raw, receive_client}
use in_lib.Mip.Daemon.Transit.{enqueue, drop4-hdr_bytes}

-- A received frame.
abbrev pub arrives : List Byte → ℕ → List Byte → Received
arrives frame iface mac = record { payload = frame; senders_iface = iface; src_addr = mac }

-- What is written for a frame of this host: the source, a zero TTL and the body less two bytes.
pub deliver_lem :
    (h : MipHdr) (body : List Byte) (k iface socket : ℕ) (mac : List Byte)
    → IsHdr h
    → h.sdu_len * 4 ≡ 2 + k
    → deliver (arrives (hdr_bytes h ++ body) iface mac) socket
      ≡ write socket (h.src ∷ 0 ∷ first_bytes k body)
unfolding deliver
deliver_lem h body k iface socket mac v e =
    rw (hdr_of-hdr_bytes h body v, drop4-hdr_bytes h body)
      (ap (write socket) (
        first_two h.src 0 (first_bytes (h.sdu_len * 4) body) (h.sdu_len * 4) k e
        ∙ ap (λ bs. h.src ∷ 0 ∷ bs) (first_bytes-first_bytes k (h.sdu_len * 4) body (omega arith))))

miptp_frame :
    (h : MipHdr) (body stack mac : List Byte) (k iface src dst : ℕ) (ifaces : List IfAddr)
    → (fds : List PollFd) (m : Mip) → IsHdr h
    → h.src ≡ src
    → h.dst ≡ dst
    → h.sdu_type ≡ 5
    → h.sdu_len * 4 ≡ 2 + k
    → dispatch_raw (arrives (hdr_bytes h ++ body) iface mac) dst ifaces stack fds m
      ≡ ret (m, write (get_or fds 4 zero_fd).fd (src ∷ 0 ∷ first_bytes k body) ∷ [])
unfolding dispatch_raw
miptp_frame h body stack mac k iface src dst ifaces fds m v es ed t e =
    ground (
      arith,
      hdr_of-hdr_bytes h body v,
      deliver_lem h body k iface (get_or fds 4 zero_fd).fd mac v e,
    )

-- The header and the body of the packet that waits for a client's message.
abbrev pub client_hdr : List Byte → ℕ → MipHdr
client_hdr buffer mip_addr =
    let ttl = get_or buffer 1 0 in
    create_mip_hdr (get_or buffer 0 0) mip_addr (if ttl == 0 then default_ttl else ttl)
      (length buffer / 4) 5

client_hdr-IsHdr : (buffer : List Byte) (mip_addr : ℕ) → IsHdr (client_hdr buffer mip_addr)
client_hdr-IsHdr buffer mip_addr =
    create_mip_hdr-IsHdr (get_or buffer 0 0) mip_addr
      (if get_or buffer 1 0 == 0 then default_ttl else get_or buffer 1 0) (length buffer / 4) 5

pub client_packet :
    (buffer stack : List Byte) (i mip_addr router : ℕ) (m : Mip)
    → (i ≡ 2) ⊎ (i ≡ 4)
    → length buffer < 2048
    → receive_client (some buffer) i mip_addr router stack m
      ≡ ret (
        enqueue m (record {
          hdr = client_hdr buffer mip_addr;
          sdu = overlay (first_bytes (length buffer) (drop 2 buffer)) stack;
        }),
        send_req_to_router mip_addr (get_or buffer 0 0) router ∷ [],
      )
unfolding receive_client
client_packet buffer stack i mip_addr router m (inl e) h = ground arith
client_packet buffer stack i mip_addr router m (inr e) h = ground arith

-- A message in whole words, of at least 2 bytes and fewer than 2048, that a client in slot 2
-- (ping) or 4 (MIPTP) of a host with an 8-bit address hands to its daemon for an 8-bit address is
-- queued, and the route is asked for, once. The frame of the queued packet is of type 5 and, at
-- the destination, is written to the client of slot 4 alone, as the message with the source and a
-- zero TTL in place of its first two bytes. So a ping, too, goes to MIPTP.
pub client_to_client :
    (buffer stack stack' mac : List Byte) (i mip_addr router iface : ℕ) (m m' : Mip)
    → (ifaces : List IfAddr) (fds : List PollFd) (k : ℕ) → (i ≡ 2) ⊎ (i ≡ 4)
    → length buffer ≡ 2 + k
    → length buffer % 4 ≡ 0
    → length buffer < 2048
    → mip_addr < 256
    → get_or buffer 0 0 < 256
    → (p : RawPacket) × (receive_client (some buffer) i mip_addr router stack m
        ≡ ret (enqueue m p, send_req_to_router mip_addr (get_or buffer 0 0) router ∷ []))
      × (p.hdr.sdu_type ≡ 5)
      × (dispatch_raw (arrives (frame_of p) iface mac) (get_or buffer 0 0) ifaces stack' fds m'
          ≡ ret (m', write (get_or fds 4 zero_fd).fd (mip_addr ∷ 0 ∷ drop 2 buffer) ∷ []))
unfolding create_mip_hdr
client_to_client buffer stack stack' mac i mip_addr router iface m m' ifaces fds k slot len words
      short a d =
    (
      record { hdr = h; sdu = overlay body stack },
      client_packet buffer stack i mip_addr router m slot short,
      refl,
      arrival,
    )
  where
    h : MipHdr
    h = client_hdr buffer mip_addr

    body : List Byte
    body = first_bytes (length buffer) (drop 2 buffer)

    size : h.sdu_len * 4 ≡ length buffer
    size = omega arith

    rest : first_bytes k body ≡ drop 2 buffer
    rest =
        first_bytes-first_bytes k (length buffer) (drop 2 buffer) (omega arith)
        ∙ ap (λ j. first_bytes j (drop 2 buffer)) (omega (arith, length-drop 2 buffer))
        ∙ first_bytes_self (drop 2 buffer)

    arrival :
        dispatch_raw
          (arrives (frame_of (record { hdr = h; sdu = overlay body stack })) iface mac)
          (get_or buffer 0 0)
          ifaces
          stack'
          fds
          m'
        ≡ ret (m', write (get_or fds 4 zero_fd).fd (mip_addr ∷ 0 ∷ drop 2 buffer) ∷ [])
    arrival =
        ap (λ f. dispatch_raw (arrives f iface mac) (get_or buffer 0 0) ifaces stack' fds m')
          (frame_of_lem h body (drop (length body) stack)
            (size ∙ sym (length-first_bytes (length buffer) (drop 2 buffer))))
        ∙ miptp_frame h body stack' mac k iface mip_addr (get_or buffer 0 0) ifaces fds m'
            (client_hdr-IsHdr buffer mip_addr) (omega arith) (omega arith) refl (size ∙ len)
        ∙ ap (λ bs. ret (m', write (get_or fds 4 zero_fd).fd (mip_addr ∷ 0 ∷ bs) ∷ [])) rest
