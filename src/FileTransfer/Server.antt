-- ===== src/FileTransfer/Server.antt =====
-- The loop of file_server.c. A call of `read` returns an option, `none` for -1.
pub mod Store
use in_lib.Base.{
  strlen, ℕ, suc, ◌+◌, ◌-◌, ◌*◌, ◌%◌, ◌≡◌, Bool, true, false, not, ◌&&◌, ◌||◌, List, [], ◌∷◌, ◌++◌,
  Option, none, some, ltb, ◌==◌, if◌then◌else◌, length, get_or, get_elem?, set, drop, Byte, bufsize,
  first_bytes, Run, ret, failed, overrun, ◌>>=◌,
}
use in_lib.Unix.{Socket}
use in_lib.FileTransfer.Links.{
  connect_to_miptp, write_identifying_msg, File, Link, check_link, get_file, create_new_link,
}

-- `ntohl(*(uint32_t*)sdu)`.
abbrev pub ntohl : List Byte → ℕ
ntohl sdu =
    get_or sdu 0 0 * 16777216 + get_or sdu 1 0 * 65536 + get_or sdu 2 0 * 256 + get_or sdu 3 0

-- A `uint32_t` difference.
abbrev pub sub32 : ℕ → ℕ → ℕ
sub32 a b = (a + (4294967296 - b)) % 4294967296

-- `fwrite` and the count, for the link at `index`. Writing to a closed file is undefined, as is a
-- length below 0. The buffer was cleared, so that `strlen` ends in it unless the message fills it.
unfoldable pub store_chunk : List Byte → ℕ → Link → List Link → Run (List Link)
store_chunk bytes index link links =
    let sdu = drop 2 bytes in
    let left = sub32 link.file_size (strlen sdu) in
    if link.file.closed || ltb (length bytes) 2
    then overrun
    else if (length bytes == bufsize) && (strlen sdu == length sdu)
    then overrun
    else ret (
        set links index (record link {
          file_size = left;
          file = record { contents = link.file.contents ++ sdu; closed = left == 0 };
        }))

-- One message: the first of a sender has the size of its file, the others have its bytes.
unfoldable pub receive_file : List Byte → List Link → Run (List Link)
receive_file bytes links =
    let mip = get_or bytes 0 0 in
    let port = get_or bytes 1 0 in
    elim (check_link port mip links) [
      | none ↦ create_new_link port mip (ntohl (drop 2 bytes)) links
      | some index ↦ elim (get_elem? links index) [
        | none ↦ overrun
        | some link ↦ store_chunk bytes index link links
      ]
    ]

-- `while (!done)`, over what `read` returns. At the end of the input the loop still waits.
unfoldable pub serve : List (Option (List Byte)) → List Link → Run (List Link)
serve [] links = ret links
serve (none ∷ reads) links = ret links
serve (some [] ∷ reads) links = ret links
serve (some (b ∷ bytes) ∷ reads) links =
    receive_file (b ∷ bytes) links >>= λ links'. serve reads links'

-- `main`: what is written, and the links when the loop is left. The port is asked for first, and the
-- program ends if the first of the two bytes of the answer is 0.
unfoldable pub main :
    Socket → ℕ → List Byte → List (Option (List Byte)) → Run (List (List Byte) × List Link)
unfolding connect_to_miptp write_identifying_msg serve
main s port answer reads = connect_to_miptp s >>= λ miptp_fd.
    if get_or answer 0 0 == 0
    then failed
    else (serve reads [] >>= λ links. ret (write_identifying_msg port ∷ [], links))
