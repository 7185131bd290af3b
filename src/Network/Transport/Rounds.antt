-- ===== src/Network/Transport/Rounds.antt =====
-- A message and its acknowledgement, on the whole way: MIPTP and the MIP daemon at both ends.
use in_lib.Base.{
  ℕ, ◌+◌, ◌<◌, ◌≡◌, refl, sym, ap, ◌∙◌, subst, if◌then◌else◌, ==-self, Bool, true, false, zero, suc,
  align4, ◌>>=◌, ◌&&◌, ◌==◌, List, [], ◌∷◌, ◌++◌, append-nil, length, get_or, drop, Byte, overlay,
  ret, ◌/◌, ◌%◌, arith,
}
use in_lib.Packet.{of_bytes}
use in_lib.Miptp.Host.{Host, Writes, MessageNode, field_of, seq_limit, index_of_port}
use in_lib.Miptp.Send.{forward_to_mip, message_for, send_ack}
use in_lib.Miptp.Send.Window.{node_for, send_next_idle}
use in_lib.Miptp.Receive.{receive_ack, receive_data, read_message}
use in_lib.Network.Messages.{carried, padding-carried, length-carried}
use in_lib.Network.Passage.{Daemons, Passes}

-- One message: MIPTP at the sender writes a packet for it, the MIP daemons `there` carry it, MIPTP at
-- the receiver reads it, hands `handed` to its application and writes an acknowledgement, the MIP
-- daemons `back` carry that, and MIPTP at the sender reads it and writes nothing. Each end has one
-- application, at the sockets `fd` and `fd'`.
pub data Round (src dst mip_daemon fd fd' time : ℕ) (stack : List Byte) (there back : Daemons)
    (sender receiver : Host) (bytes handed : List Byte) : Host → Host → Type 0 where
  exchange :
      {sent sender' receiver' : Host} (packet up ack acked : List Byte)
      → forward_to_mip mip_daemon bytes stack time sender
        ≡ ret (sent, record { fd = mip_daemon; bytes = packet } ∷ [])
      → Passes there src dst packet up
      → read_message mip_daemon up [] time (receiver ∷ []) (fd' ∷ [])
        ≡ ret (
          receiver' ∷ [],
          record { fd = mip_daemon; bytes = ack } ∷ record { fd = fd'; bytes = handed } ∷ [],
        )
      → Passes back dst src ack acked
      → read_message mip_daemon acked [] time (sent ∷ []) (fd ∷ []) ≡ ret (sender' ∷ [], [])
      → Round src dst mip_daemon fd fd' time stack there back sender receiver bytes handed sender'
          receiver'

-- Any number of messages, in their order, and what is handed over for each.
pub data Rounds (src dst mip_daemon fd fd' time : ℕ) (stack : List Byte) (there back : Daemons)
    : Host → Host → List (List Byte) → List (List Byte) → Host → Host → Type 0 where
  done :
      {sender receiver : Host}
      → Rounds src dst mip_daemon fd fd' time stack there back sender receiver [] [] sender receiver
  next :
      {sender receiver sender' receiver' sender'' receiver'' : Host} {bytes handed : List Byte}
      {ms hs : List (List Byte)}
      → Round src dst mip_daemon fd fd' time stack there back sender receiver bytes handed sender'
          receiver'
      → Rounds src dst mip_daemon fd fd' time stack there back sender' receiver' ms hs sender''
          receiver''
      → Rounds src dst mip_daemon fd fd' time stack there back sender receiver
          (bytes ∷ ms)
          (handed ∷ hs)
          sender''
          receiver''

drop_nil : (n : ℕ) → drop {A = Byte} n [] ≡ []
drop_nil zero = refl
drop_nil (suc n) = refl

overlay_nil : (p : List Byte) → p ++ drop (length p) [] ≡ p
overlay_nil p = ap (λ q. p ++ q) (drop_nil (length p)) ∙ append-nil p

-- The test of `read_message` for an acknowledgement.
abbrev pub is_ack : List Byte → ℕ → Bool
is_ack buffer rc = (rc == 8) && (field_of (of_bytes buffer).msg % 4 == 2)

-- `read_message` of a packet for the only application, into a cleared buffer.
pub read_one :
    (mip_daemon time fd : ℕ) (p : List Byte) (host : Host) (r : Host × Writes)
    → get_or (of_bytes p).msg 1 0 ≡ host.port
    → (if is_ack p (length p)
        then receive_ack mip_daemon time (field_of (of_bytes p).msg / 4) host
        else receive_data mip_daemon fd p (length p) host)
      ≡ ret r
    → read_message mip_daemon p [] time (host ∷ []) (fd ∷ []) ≡ ret (r.0 ∷ [], r.1)
unfolding read_message index_of_port
read_one mip_daemon time fd p host r to e =
    let q = overlay p [] in
    let same : p ≡ q = sym (overlay_nil p) in
    let to' : get_or (of_bytes q).msg 1 0 ≡ host.port =
      subst (λ q. get_or (of_bytes q).msg 1 0 ≡ host.port) same to in
    let e' : (if is_ack q (length p)
          then receive_ack mip_daemon time (field_of (of_bytes q).msg / 4) host
          else receive_data mip_daemon fd q (length p) host)
        ≡ ret r =
      subst
        (λ q.
          (if is_ack q (length p)
            then receive_ack mip_daemon time (field_of (of_bytes q).msg / 4) host
            else receive_data mip_daemon fd q (length p) host)
          ≡ ret r)
        same e in
    rw (read_message, to', ==-self host.port) (ap (λ m. m >>= λ r. ret (r.0 ∷ [], r.1)) e')

-- An acknowledgement as it is read: its address on the way, its port, and its field.
pub ack_lem :
    (mip_daemon dst_port dst_mip seq src_port mip : ℕ)
    → seq < seq_limit
    → let ack = (send_ack mip_daemon dst_port dst_mip seq src_port).bytes in
      let acked : List Byte = mip ∷ 0 ∷ drop 2 ack in
      (length ack ≡ 8)
      × (get_or ack 0 0 ≡ dst_mip)
      × (get_or (of_bytes acked).msg 1 0 ≡ dst_port)
      × (is_ack acked (length acked) ≡ true)
      × (field_of (of_bytes acked).msg / 4 ≡ seq)
unfolding send_ack
ack_lem mip_daemon dst_port dst_mip seq src_port mip small =
    (refl, refl, refl, ground arith, omega arith)

-- The acknowledgement of the only node that waits empties the queue.
pub receive_ack_only :
    (mip_daemon time seq : ℕ) (node : MessageNode) (host : Host)
    → host.message_queue ≡ node ∷ []
    → node.seq ≡ seq
    → receive_ack mip_daemon time seq host ≡ ret (record host { message_queue = [] }, [])
unfolding receive_ack
receive_ack_only mip_daemon time seq node host e n =
    rw (receive_ack, e, n, ==-self seq, send_next_idle mip_daemon time []) refl

-- The packet of a message is no acknowledgement: if it has eight bytes, its field says that none are
-- over a word.
pub no_ack :
    (bytes stack : List Byte) (time src k : ℕ) (host : Host)
    → length bytes ≡ 2 + k
    → length bytes % 2 ≡ 0
    → is_ack
        (carried src (node_for bytes stack time host))
        (length (carried src (node_for bytes stack time host)))
      ≡ false
unfolding message_for
no_ack bytes stack time src k host long even =
    let p = carried src (node_for bytes stack time host) in
    let size : length p ≡ align4 (6 + length bytes) =
      length-carried bytes stack time src k host long in
    let rest : field_of (of_bytes p).msg % 4 ≡ (6 + length bytes) % 4 =
      padding-carried bytes stack time src k host long in
    rw (size, rest) (ground arith)
