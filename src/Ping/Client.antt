-- ===== src/Ping/Client.antt =====
-- ping_client.c: the message, and the loop that waits for its answer. The socket does not block: a
-- call of `read` returns an option, `none` for -1. `clock` is an argument of each round.
use in_lib.Unix.{Socket, open_socket}
use in_lib.Base.{
  ◌>>=◌, ℕ, ◌+◌, ◌%◌, Bool, true, false, ◌&&◌, List, [], ◌∷◌, Option, none, some, ltb, ◌==◌,
  if◌then◌else◌, length, drop, Byte, bufsize, first_bytes, align4, strlen, c_string, same_bytes,
  Run, ret, overrun,
}

-- What the client waits for, of what it sends.
abbrev pub pong : List Byte → List Byte
pong msg = b'P' ∷ b'O' ∷ b'N' ∷ b'G' ∷ b':' ∷ msg

unfoldable pub write_identifying_msg : List Byte
write_identifying_msg = first_bytes 1 (0x02 ∷ [])

-- `msg_size` is a `uint8_t`.
unfoldable pub write_to_server : List Byte → ℕ → ℕ → ℕ → List Byte
write_to_server msg msg_size mip_dst ttl =
    first_bytes (align4 (7 + msg_size))
      (mip_dst ∷ ttl ∷ b'P' ∷ b'I' ∷ b'N' ∷ b'G' ∷ b':' ∷ first_bytes msg_size msg)

-- Why the client stops, if it does.
pub data Status : Type 0 where
  waiting : Status
  answered : Status
  disconnected : Status
  timed_out : Status

-- The buffer is cleared, so that a string ends in it unless the message fills it.
unfoldable pub read_from_socket : Option (List Byte) → List Byte → Run Status
read_from_socket none expected_resp = ret waiting
read_from_socket (some []) expected_resp = ret disconnected
read_from_socket (some (b ∷ bytes)) expected_resp =
    let msg = drop 2 (b ∷ bytes) in
    if (length (b ∷ bytes) == bufsize) && (strlen msg == length msg)
    then overrun
    else ret (if same_bytes (c_string msg) expected_resp then answered else waiting)

-- A round of the loop: whether more than a second has passed, and what `read` returns.
pub record Tick : Type 0 where
  pub late : Bool
  pub input : Option (List Byte)

unfoldable pub wait_for : List Byte → List Tick → Run Status
unfolding read_from_socket
wait_for expected_resp [] = ret waiting
wait_for expected_resp (t ∷ ts) = elim t.late [
  | true ↦ ret timed_out
  | false ↦ elim (read_from_socket t.input expected_resp) [
    | ret waiting ↦ wait_for expected_resp ts
    | other ↦ other
  ]
]

-- `main` up to its loop: what is written, and the string that is waited for, if the arguments fit their arrays.
unfoldable pub start : List Byte → ℕ → ℕ → Run (List (List Byte) × List Byte)
unfolding write_identifying_msg write_to_server
start msg mip_dst ttl =
    let expected_resp = b'P' ∷ b'O' ∷ b'N' ∷ b'G' ∷ b':' ∷ msg in
    if ltb (length expected_resp) bufsize
    then ret (
      write_identifying_msg ∷ write_to_server msg (length msg % 256) mip_dst ttl ∷ [],
      expected_resp,
    )
    else overrun

unfoldable pub socket_setdown : Socket → Run ℕ
socket_setdown s = open_socket s

-- All of `main`: what is written, and why the client stops.
unfoldable pub main : Socket → List Byte → ℕ → ℕ → List Tick → Run (List (List Byte) × Status)
unfolding start wait_for socket_setdown
main s msg mip_dst ttl ticks = start msg mip_dst ttl >>= λ started.
    socket_setdown s >>= λ sock_server.
    wait_for started.1 ticks >>= λ status. ret (started.0, status)
