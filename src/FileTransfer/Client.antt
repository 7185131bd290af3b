-- ===== src/FileTransfer/Client.antt =====
-- file_transfer.c: the request for a port, and the messages with the file.
use in_lib.Base.{
  ℕ, zero, suc, ◌+◌, ◌/◌, ◌%◌, List, [], ◌∷◌, ◌++◌, ltb, ◌==◌, if◌then◌else◌, length, get_or, take,
  drop, Byte, first_bytes, Run, ret, failed, no_fuel, ◌>>=◌,
}
use in_lib.Unix.{Socket}
use in_lib.FileTransfer.Links.{connect_to_miptp, write_identifying_msg}

-- An attempt: what `rand()` gives, and the two bytes that MIPTP answers.
pub record Attempt : Type 0 where
  pub random : ℕ
  pub answer : List Byte

-- `while (!approved)`: the port and what was written. Without an answer the program waits; it
-- makes three attempts.
unfoldable pub ask_port : ℕ → List Attempt → Run (ℕ × List (List Byte))
unfolding write_identifying_msg
ask_port i [] = if ltb 2 i then failed else no_fuel
ask_port i (a ∷ more) =
    let request = write_identifying_msg (a.random % 256) in
    let next = ask_port (i + 1) more >>= λ r. ret (r.0, request ∷ r.1) in
    if ltb 2 i
    then failed
    else if get_or a.answer 0 0 == 0
    then next
    else ret (get_or a.answer 1 0, request ∷ [])

-- The size, in network order, with four zero bytes behind it: `sizeof(unsigned long)` is 8.
unfoldable pub size_message : ℕ → ℕ → ℕ → List Byte
size_message dst_mip dst_port file_size = first_bytes 10 (
    dst_mip
    ∷ dst_port
    ∷ file_size / 16777216 % 256
    ∷ file_size / 65536 % 256
    ∷ file_size / 256 % 256
    ∷ file_size % 256
    ∷ [])

-- The `while` over `fread`, on fuel: 1400 bytes at a time.
unfoldable pub chunks : ℕ → ℕ → ℕ → List Byte → Run (List (List Byte))
chunks zero dst_mip dst_port file = no_fuel
chunks (suc fuel) dst_mip dst_port [] = ret []
chunks (suc fuel) dst_mip dst_port (b ∷ bytes) =
    let file = b ∷ bytes in
    chunks fuel dst_mip dst_port (drop 1400 file) >>= λ more.
    ret ((dst_mip ∷ dst_port ∷ take 1400 file) ∷ more)

-- What is written for a file; `file_size` is a `uint32_t`.
unfoldable pub send_file : ℕ → ℕ → List Byte → Run (List (List Byte))
unfolding size_message
send_file dst_mip dst_port file = chunks (suc (length file)) dst_mip dst_port file >>= λ rest.
    ret (size_message dst_mip dst_port (length file % 4294967296) ∷ rest)

-- `main`: what is written.
unfoldable pub main : Socket → List Attempt → ℕ → ℕ → List Byte → Run (List (List Byte))
unfolding connect_to_miptp ask_port send_file
main s attempts dst_mip dst_port file = connect_to_miptp s >>= λ miptp_fd.
    ask_port 0 attempts >>= λ asked.
    send_file dst_mip dst_port file >>= λ sent. ret (asked.1 ++ sent)
