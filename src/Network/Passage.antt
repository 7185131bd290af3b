-- ===== src/Network/Passage.antt =====
-- A message of an application from one host to another: miptp_utils.c at both ends, and in between
-- the branches of mip_daemon.c for a local client and for a frame.
use in_lib.Base.{
  ℕ, ◌+◌, ◌-◌, ◌%◌, ◌≤◌, ◌<◌, ◌≡◌, refl, sym, ap, subst, ◌∙◌, inr, List, [], ◌∷◌, some, length,
  get_or, drop, Byte, align4, align4_aligned, overlay, first_bytes, first_two, length-first_bytes,
  ret, arith,
}
use in_lib.Packet.{to_bytes}
use in_lib.Mip.Link.{IfAddr, write}
use in_lib.Mip.Forward.{Mip, send_req_to_router, frame_of}
use in_lib.Mip.Wire.{RawPacket}
use in_lib.Mip.Daemon.{PollFd, zero_fd, dispatch_raw, receive_client}
use in_lib.Mip.Daemon.Transit.{enqueue}
use in_lib.Mip.Daemon.Clients.{arrives, client_to_client}
use in_lib.Miptp.Host.{Host}
use in_lib.Miptp.Send.{message_for}
use in_lib.Miptp.Send.Window.{node_for}
use in_lib.Network.Messages.{carried}

-- The two MIP daemons that a message passes: their state, sockets, interfaces and memory, and how
-- the frame comes in at the second.
pub record Daemons : Type 0 where
  pub first : Mip
  pub router : ℕ
  pub stack : List Byte
  pub second : Mip
  pub fds : List PollFd
  pub ifaces : List IfAddr
  pub stack' : List Byte
  pub iface : ℕ
  pub mac : List Byte

-- What MIPTP writes to the daemon of host `src`, in slot 4, becomes one packet in its queue, and the
-- frame of that packet makes the daemon of host `dst` write `up` to its MIPTP, and nothing else.
abbrev pub Passes : Daemons → ℕ → ℕ → List Byte → List Byte → Type 0
Passes d src dst buffer up =
    (p : RawPacket) × (receive_client (some buffer) 4 src d.router d.stack d.first
      ≡ ret (enqueue d.first p, send_req_to_router src dst d.router ∷ []))
    × (dispatch_raw (arrives (frame_of p) d.iface d.mac) dst d.ifaces d.stack' d.fds d.second
        ≡ ret (d.second, write (get_or d.fds 4 zero_fd).fd up ∷ []))

pub words_pass :
    (d : Daemons) (src dst k : ℕ) (buffer : List Byte)
    → length buffer ≡ 2 + k
    → length buffer % 4 ≡ 0
    → length buffer < 2048
    → src < 256
    → dst < 256
    → get_or buffer 0 0 ≡ dst
    → Passes d src dst buffer (src ∷ 0 ∷ drop 2 buffer)
words_pass d src dst k buffer len words short a b to =
    let (p, queued, type, arrived) =
      client_to_client buffer d.stack d.stack' d.mac 4 src d.router d.iface d.first d.second
        d.ifaces d.fds k (inr refl) len words short a (subst (λ x. x < 256) (sym to) b) in
    subst (λ x. Passes d src x buffer (src ∷ 0 ∷ drop 2 buffer)) to (p, queued, arrived)

head-overlay :
    (bytes stack : List Byte) (k : ℕ)
    → length bytes ≡ 2 + k
    → get_or (overlay bytes stack) 0 0 ≡ get_or bytes 0 0
head-overlay [] stack k e = absurd (omega arith)
head-overlay (b ∷ bytes) stack k e = refl

pub target-overlay :
    (bytes stack : List Byte) (k : ℕ)
    → length bytes ≡ 2 + k
    → get_or (overlay bytes stack) 1 0 ≡ get_or bytes 1 0
target-overlay [] stack k e = absurd (omega arith)
target-overlay (b ∷ []) stack k e = absurd (omega arith)
target-overlay (b ∷ c ∷ bytes) stack k e = refl

-- A node's packet passes, if its message is short enough for the length field of the MIP header.
pub node-Passes :
    (d : Daemons) (src dst k time : ℕ) (bytes stack : List Byte) (host : Host)
    → length bytes ≡ 2 + k
    → length bytes ≤ 2038
    → src < 256
    → dst < 256
    → get_or bytes 0 0 ≡ dst
    → let node = node_for bytes stack time host in
      Passes d src dst (first_bytes node.size (to_bytes node.packet)) (carried src node)
unfolding message_for
node-Passes d src dst k time bytes stack host len short a b to =
    let node = node_for bytes stack time host in
    let buffer = first_bytes node.size (to_bytes node.packet) in
    let size : length buffer ≡ align4 (6 + length bytes) =
      length-first_bytes node.size (to_bytes node.packet) in
    let whole : length buffer % 4 ≡ 0 =
      ap (λ n. n % 4) size ∙ (align4_aligned (6 + length bytes)).0 in
    let head : get_or buffer 0 0 ≡ get_or (overlay bytes stack) 0 0 =
      ap (λ bs. get_or bs 0 0)
        (first_two _ _ _ (align4 (6 + length bytes)) (align4 (6 + length bytes) - 2)
          (ground arith)) in
    words_pass d src dst (align4 (6 + length bytes) - 2) buffer (ground (arith, size)) whole
      (ground (arith, size)) a b (head ∙ head-overlay bytes stack k len ∙ to)
