-- ===== src/Ping/Server.antt =====
-- ping_server.c: every message is sent back with PONG: in place of its first five bytes. A call of
-- `read` returns an option, `none` for -1.
use in_lib.Unix.{Socket, open_socket}
use in_lib.Base.{
  ℕ, ◌+◌, List, [], ◌∷◌, Option, none, some, ltb, if◌then◌else◌, length, drop, Byte, bufsize,
  first_bytes, align4, Run, ret, overrun, ◌>>=◌,
}
use in_lib.Packet.{of_bytes}

unfoldable pub write_identifying_msg : List Byte
write_identifying_msg = first_bytes 1 (0x02 ∷ [])

-- The copy takes as many bytes as were read, from the sixth of the message on.
unfoldable pub write_to_socket : List Byte → ℕ → ℕ → ℕ → Run (List Byte)
write_to_socket msg msg_size mip ttl =
    if ltb bufsize (7 + msg_size)
    then overrun
    else ret (
        first_bytes (align4 msg_size)
          (mip ∷ ttl ∷ b'P' ∷ b'O' ∷ b'N' ∷ b'G' ∷ b':' ∷ first_bytes msg_size (drop 5 msg)))

-- What is written; `none` where the server stops.
unfoldable pub read_from_socket : ℕ → Option (List Byte) → Run (Option (List Byte))
unfolding write_to_socket
read_from_socket ttl none = ret none
read_from_socket ttl (some []) = ret none
read_from_socket ttl (some (b ∷ bytes)) =
    let down = of_bytes (b ∷ bytes) in
    write_to_socket down.msg (length (b ∷ bytes)) down.mip ttl >>= λ out. ret (some out)

-- `while (!done)`, over what `read` returns.
unfoldable pub serve : ℕ → List (Option (List Byte)) → Run (List (List Byte))
unfolding read_from_socket
serve ttl [] = ret []
serve ttl (input ∷ inputs) = read_from_socket ttl input >>= λ r. elim r [
  | none ↦ ret []
  | some out ↦ serve ttl inputs >>= λ more. ret (out ∷ more)
]

unfoldable pub setup_unix_socket : Socket → Run ℕ
setup_unix_socket s = open_socket s

-- `main`: it identifies itself first.
unfoldable pub main : Socket → ℕ → List (Option (List Byte)) → Run (List (List Byte))
unfolding write_identifying_msg serve setup_unix_socket
main s ttl inputs = setup_unix_socket s >>= λ sock_server.
    serve ttl inputs >>= λ out. ret (write_identifying_msg ∷ out)
