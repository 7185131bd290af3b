-- ===== src/Miptp/Host.antt =====
-- The data of miptp_daemon.h, with the ports and the packed sequence numbers. `seq` on the wire has
-- 14 bits of sequence number above 2 bits of padding, high byte first.
use in_lib.Base.{
  ℕ, suc, ◌+◌, ◌*◌, ◌/◌, ◌%◌, Bool, true, false, List, [], ◌∷◌, Option, none, some, ◌==◌,
  if◌then◌else◌, Byte, get_or, first_bytes,
}
use in_lib.Packet.{UnixPacket}

-- `struct seq_link`: what is expected next from a port of a host.
pub record SeqLink : Type 0 where
  pub port : ℕ
  pub mip : ℕ
  pub seq : ℕ

-- `struct message_node`, without `next`; of `time` only the seconds are read.
pub record MessageNode : Type 0 where
  pub packet : UnixPacket
  pub time : ℕ
  pub size : ℕ
  pub seq : ℕ

-- `struct host`: `seq_link` up to `num_seq_link`, and the nodes behind the queue's head node.
pub record Host : Type 0 where
  pub port : ℕ
  pub fd_index : ℕ
  pub seq_link : List SeqLink
  pub seq_send : ℕ
  pub message_queue : List MessageNode

-- A write to a socket.
pub record Write : Type 0 where
  pub fd : ℕ
  pub bytes : List Byte

abbrev pub Writes : Type 0
Writes = List Write

-- `1 << 14`.
abbrev pub seq_limit : ℕ
seq_limit = 16384

-- `(uint16_t)((seq << 2) | low)`, for `low` below 4.
abbrev pub seq_field : ℕ → ℕ → ℕ
seq_field seq low = (seq * 4 + low) % 65536

-- `ntohs(pdu->seq)` for a pdu in the `msg` of a packet.
abbrev pub field_of : List Byte → ℕ
field_of msg = get_or msg 2 0 * 256 + get_or msg 3 0

-- The overflow rule of both ends.
unfoldable pub next_seq : ℕ → ℕ
next_seq seq = if seq == seq_limit then 0 else seq + 1

-- `struct miptp_pdu`, the field in network order.
abbrev pub pdu_bytes : ℕ → ℕ → ℕ → List Byte → List Byte
pdu_bytes src_port dst_port field sdu = src_port ∷ dst_port ∷ field / 256 ∷ field % 256 ∷ sdu

unfoldable pub index_of_port : ℕ → List Host → Option ℕ
index_of_port port [] = none
index_of_port port (h ∷ hosts) =
    let later = index_of_port port hosts in
    if h.port == port then some 0 else elim later [ none ↦ none | some i ↦ some (suc i) ]

unfoldable pub available_port : List Host → ℕ → Bool
available_port [] port = true
available_port (h ∷ hosts) port =
    let later = available_port hosts port in if h.port == port then false else later

unfoldable pub send_port_response : ℕ → ℕ → ℕ → Write
send_port_response fd port approved = record { fd = fd; bytes = approved ∷ port ∷ [] }

unfoldable pub write_identifying_msg : ℕ → Write
write_identifying_msg mip_fd = record { fd = mip_fd; bytes = first_bytes 1 (0x05 ∷ []) }
