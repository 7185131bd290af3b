-- ===== src/Miptp/Receive.antt =====
-- `read_message` of miptp_utils.c: acknowledgements, and messages for the applications.
pub mod InOrder
use in_lib.Base.{
  ℕ, zero, suc, ◌+◌, ◌-◌, ◌*◌, ◌/◌, ◌%◌, ◌≡◌, Bool, true, false, not, ◌&&◌, List, [], ◌∷◌, ◌++◌,
  Option, none, some, ltb, ◌==◌, if◌then◌else◌, length, get_or, get_elem?, set, drop, Byte, bufsize,
  first_bytes, overlay, Run, ret, overrun, no_fuel, failed, ◌>>=◌,
}
use in_lib.Packet.{UnixPacket, to_bytes, of_bytes, max_links}
use in_lib.Miptp.Host.{SeqLink, MessageNode, Host, Write, Writes, field_of, next_seq, index_of_port}
use in_lib.Miptp.Send.{send_ack, send_next}

-- `seq_exp`, with the index that its pointer stands for.
unfoldable pub seq_exp : List SeqLink → ℕ → ℕ → Option (ℕ × ℕ)
seq_exp [] src_mip src_port = none
seq_exp (l ∷ links) src_mip src_port =
    let later = seq_exp links src_mip src_port in
    if (l.port == src_port) && (l.mip == src_mip)
    then some (0, l.seq)
    else elim later [ none ↦ none | some (i, seq) ↦ some (suc i, seq) ]

-- The branch of an ACK: the first node of the queue is freed if it is the one acknowledged. With
-- an empty queue the code reads through a null pointer.
unfoldable pub receive_ack : ℕ → ℕ → ℕ → Host → Run (Host × Writes)
receive_ack mip_daemon time seq host = elim host.message_queue [
  | [] ↦ overrun
  | first ∷ rest ↦ ret (
      if seq == first.seq
      then (let (queue, out) = send_next mip_daemon time rest in
          (record host { message_queue = queue }, out))
      else (host, []))
]

-- The expected number of a link after its packet, whose index is given.
abbrev pub advance : List SeqLink → ℕ → List SeqLink
unfolding next_seq
advance [] i = []
advance (l ∷ links) zero = record l { seq = next_seq l.seq } ∷ links
advance (l ∷ links) (suc i) = l ∷ advance links i

-- The links after a packet of that number, or `none` where it is ignored. A first
-- packet makes a link that expects its own number; the array holds `max_links` of them.
unfoldable pub accept : ℕ → ℕ → ℕ → List SeqLink → Run (Option (List SeqLink))
unfolding next_seq
accept src_mip src_port seq links = elim (seq_exp links src_mip src_port) [
  | some (i, exp_seq) ↦ ret (if seq == exp_seq then some (advance links i) else none)
  | none ↦
      if ltb (length links) max_links
      then ret
          (some (links ++ (record { port = src_port; mip = src_mip; seq = next_seq seq } ∷ [])))
      else overrun
]

-- What the application gets: the source in place of the first two bytes. A size below zero is a
-- read far behind the buffer.
unfoldable pub app_message : List Byte → ℕ → ℕ → ℕ → ℕ → Run (List Byte)
app_message buffer rc padding src_mip src_port =
    if ltb rc (6 + padding)
    then overrun
    else ret (first_bytes (rc - (6 + padding)) (src_mip ∷ src_port ∷ drop 8 buffer))

-- The branch of a message for an application. The ACK is sent in any case.
unfoldable pub receive_data : ℕ → ℕ → List Byte → ℕ → Host → Run (Host × Writes)
receive_data mip_daemon app_fd buffer rc host =
    let packet = of_bytes buffer in
    let src_port = get_or packet.msg 0 0 in
    let seq = field_of packet.msg / 4 in
    let padding = field_of packet.msg % 4 in
    let ack = send_ack mip_daemon src_port packet.mip seq (get_or packet.msg 1 0) in
    accept packet.mip src_port seq host.seq_link >>= λ accepted. elim accepted [
      | none ↦ ret (host, ack ∷ [])
      | some links ↦ app_message buffer rc padding packet.mip src_port >>= λ bytes.
          ret (record host { seq_link = links }, ack ∷ record { fd = app_fd; bytes = bytes } ∷ [])
    ]

-- The fd of an application; a packet for an unknown port indexes the arrays at -1.
unfoldable pub read_message :
    ℕ → List Byte → List Byte → ℕ → List Host → List ℕ → Run (List Host × Writes)
unfolding receive_ack receive_data
read_message mip_daemon bytes stack time hosts applications =
    let buffer = overlay bytes stack in
    let packet = of_bytes buffer in
    let field = field_of packet.msg in
    elim (index_of_port (get_or packet.msg 1 0) hosts) [
      | none ↦ overrun
      | some index ↦ elim (get_elem? hosts index) [
        | none ↦ overrun
        | some host ↦
            (if (length bytes == 8) && (field % 4 == 2)
              then receive_ack mip_daemon time (field / 4) host
              else receive_data mip_daemon (get_or applications index 0) buffer (length bytes) host)
            >>= λ r. ret (set hosts index r.0, r.1)
      ]
    ]
