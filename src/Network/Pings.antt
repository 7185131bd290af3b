-- ===== src/Network/Pings.antt =====
-- A ping from the command line to the queue of the MIP daemon, and from there to the other host:
-- ping_client.c, mip_daemon.c, and miptp_utils.c, which gets it.
use in_lib.Base.{
  ℕ, ◌≢◌, All, none, subst, sym, overrun, first_bytes_split, align4_aligned, ◌+◌, ◌-◌, ◌%◌, ◌≤◌,
  ◌<◌, ◌≡◌, refl, ap, ◌∙◌, inl, true, List, [], ◌∷◌, some, ltb, ◌==◌, if◌then◌else◌, length, get_or,
  Byte, bufsize, first_bytes, overlay, drop, length-first_bytes, first_two, align4, ret, ◌>>=◌,
  arith,
}
use in_lib.Packet.{default_ttl, of_bytes}
use in_lib.Arguments.{Args, PingClientArgs, ping_client, no_options, argument, copied, small_number}
use in_lib.Ping.Client.{start, write_to_server, write_identifying_msg}
use in_lib.Mip.Wire.{RawPacket, create_mip_hdr}
use in_lib.Mip.Link.{write}
use in_lib.Mip.Forward.{Mip, send_req_to_router, frame_of}
use in_lib.Mip.Daemon.{receive_client, dispatch_raw, zero_fd}
use in_lib.Miptp.Host.{Host, index_of_port}
use in_lib.Miptp.Receive.{read_message}
use in_lib.Network.Passage.{Daemons}
use in_lib.Mip.Daemon.Clients.{arrives, client_hdr, client_packet, client_to_client}
use in_lib.Ping.Client.{pong}
use in_lib.Mip.Daemon.Transit.{enqueue}

module _ (atoi : List Byte → ℕ) (host ttl text path : List Byte) where
  abbrev pub command : Args
  command = record { options = []; operands = host ∷ ttl ∷ text ∷ path ∷ [] }

  abbrev pub parsed : PingClientArgs
  parsed = record { mip_dst = atoi host % 256; ttl = atoi ttl % 256; msg = text; path = path }

  command-parsed :
      length text < bufsize → length path < bufsize → ping_client atoi command ≡ ret parsed
  unfolding ping_client no_options argument copied small_number
  command-parsed h k =
      let text_fits : ltb (length text) 4096 ≡ true = ground arith in
      let path_fits : ltb (length path) 4096 ≡ true = ground arith in
      rw (ping_client, copied, text_fits, path_fits) refl

  abbrev message : List Byte
  message = write_to_server text (length text % 256) (atoi host % 256) (atoi ttl % 256)

  -- The bytes of the message behind its first two.
  message-head : (rest : List Byte) × (message ≡ (atoi host % 256) ∷ (atoi ttl % 256) ∷ rest)
  unfolding write_to_server
  message-head = (_, first_two _ _ _ _ (align4 (7 + length text % 256) - 2) (ground arith))

  length-message : length message ≤ 265
  unfolding write_to_server
  length-message = grind (arith, length-first_bytes (align4 (7 + length text % 256)) _)

  abbrev queued : ℕ → List Byte → RawPacket
  queued mip_addr stack = record {
    hdr = client_hdr message mip_addr;
    sdu = overlay (first_bytes (length message) (drop 2 message)) stack;
  }

  -- `ping_client` is started without options on an address, a TTL, a text and a path. If the path fits
  -- its array, and the text with PONG: before it too, then the message that it writes behind its
  -- identification makes the MIP daemon of a host with an 8-bit address ask for the way to the
  -- address, modulo 256, and queue one packet, from its host to that address. The packet's TTL is the
  -- one given, modulo 256, or the default if that is 0, and then modulo 16.
  pub command_queued :
      (mip_addr router : ℕ) (stack : List Byte) (m : Mip)
      → length text + 5 < bufsize
      → length path < bufsize
      → mip_addr < 256
      → (bytes : List Byte) × (p : RawPacket) × ((ping_client atoi command >>= λ a.
            start a.msg a.mip_dst a.ttl)
          ≡ ret (write_identifying_msg ∷ bytes ∷ [], pong text))
        × (receive_client (some bytes) 2 mip_addr router stack m
            ≡ ret (enqueue m p, send_req_to_router mip_addr (atoi host % 256) router ∷ []))
        × (p.hdr.dst ≡ atoi host % 256)
        × (p.hdr.src ≡ mip_addr)
        × (p.hdr.ttl ≡ (if atoi ttl % 256 == 0 then default_ttl else atoi ttl % 256) % 16)
  unfolding start create_mip_hdr
  command_queued mip_addr router stack m text_fits path_fits small =
      let (rest, head) = message-head in
      let to : get_or message 0 0 ≡ atoi host % 256 = ap (λ b. get_or b 0 0) head in
      let with_ttl : get_or message 1 0 ≡ atoi ttl % 256 = ap (λ b. get_or b 1 0) head in
      (
        message,
        queued mip_addr stack,
        ap (λ r. r >>= λ a. start a.msg a.mip_dst a.ttl) (command-parsed (omega arith) path_fits)
            ∙ started,
        client_packet message stack 2 mip_addr router m (inl refl) (omega (arith, length-message))
            ∙ ap
                (λ d.
                  ret
                    (enqueue m (queued mip_addr stack), send_req_to_router mip_addr d router ∷ []))
                to,
        ground (arith, to),
        ground arith,
        ap (λ t. (if t == 0 then default_ttl else t) % 16) with_ttl,
      )
    where
      started :
          start text (atoi host % 256) (atoi ttl % 256)
          ≡ ret (write_identifying_msg ∷ message ∷ [], pong text)
      started = ground arith

index_of_port-none :
    (port : ℕ) (hosts : List Host)
    → All (λ h. h.port ≢ port) hosts
    → index_of_port port hosts ≡ none
unfolding index_of_port
index_of_port-none port [] free = refl
index_of_port-none port (h ∷ hosts) free = ground (arith, index_of_port-none port hosts free.1)

-- A message of the ping client, of any text, that the MIP daemon of a host with an 8-bit address
-- takes to another such host: the frame of its packet is handed to MIPTP there, which reads the
-- second letter of PING: as the port. If no application has the port 73, MIPTP leaves its arrays.
pub ping_reaches_miptp :
    (d : Daemons) (text stack : List Byte) (ttl src dst mip_daemon time : ℕ) (hosts : List Host)
    (applications : List ℕ)
    → src < 256
    → dst < 256
    → All (λ h. h.port ≢ b'I') hosts
    → let ping = write_to_server text (length text % 256) dst ttl in
      (p : RawPacket) × (up : List Byte) × (receive_client
          (some ping)
          2
          src
          d.router
          d.stack
          d.first
        ≡ ret (enqueue d.first p, send_req_to_router src dst d.router ∷ []))
      × (dispatch_raw (arrives (frame_of p) d.iface d.mac) dst d.ifaces d.stack' d.fds d.second
          ≡ ret (d.second, write (get_or d.fds 4 zero_fd).fd up ∷ []))
      × (read_message mip_daemon up stack time hosts applications ≡ overrun)
unfolding write_to_server read_message
ping_reaches_miptp d text stack ttl src dst mip_daemon time hosts applications a b free =
    let n = align4 (7 + length text % 256) in
    let ping = write_to_server text (length text % 256) dst ttl in
    let head : ping
        ≡ dst
          ∷ ttl
          ∷ b'P'
          ∷ b'I'
          ∷ first_bytes (n - 4) (b'N' ∷ b'G' ∷ b':' ∷ first_bytes (length text % 256) text) =
      first_bytes_split (dst ∷ ttl ∷ b'P' ∷ b'I' ∷ [])
        (b'N' ∷ b'G' ∷ b':' ∷ first_bytes (length text % 256) text) n (n - 4) (ground arith) in
    let size : length ping ≡ n = length-first_bytes n _ in
    let to : get_or ping 0 0 ≡ dst = ap (λ bs. get_or bs 0 0) head in
    let (p, queued, _, arrived) =
      client_to_client ping d.stack d.stack' d.mac 2 src d.router d.iface d.first d.second d.ifaces
        d.fds (n - 2) (inl refl) (ground (arith, size))
        (ap (λ k. k % 4) size ∙ (align4_aligned (7 + length text % 256)).0) (ground (arith, size)) a
        (subst (λ x. x < 256) (sym to) b) in
    let up : List Byte = src ∷ 0 ∷ drop 2 ping in
    let port : get_or (of_bytes (overlay up stack)).msg 1 0 ≡ b'I' =
      ap (λ bs. get_or (of_bytes (overlay (src ∷ 0 ∷ drop 2 bs) stack)).msg 1 0) head in
    (
      p,
      up,
      subst
          (λ x.
            receive_client (some ping) 2 src d.router d.stack d.first
            ≡ ret (enqueue d.first p, send_req_to_router src x d.router ∷ []))
          to queued,
      subst
          (λ x.
            dispatch_raw (arrives (frame_of p) d.iface d.mac) x d.ifaces d.stack' d.fds d.second
            ≡ ret (d.second, write (get_or d.fds 4 zero_fd).fd up ∷ []))
          to arrived,
      rw (read_message, port, index_of_port-none b'I' hosts free) refl,
    )
