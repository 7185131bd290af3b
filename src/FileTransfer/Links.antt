-- ===== src/FileTransfer/Links.antt =====
-- file_transfer_utils.c: the links of the server, each with the file that it fills. `fopen`
-- succeeds, on a path of its own for each address and port.
use in_lib.Base.{
  ℕ, zero, suc, ◌≡◌, get_elem?, arith, Bool, false, ◌&&◌, List, [], ◌∷◌, ◌++◌, Option, none, some,
  ltb, ◌==◌, if◌then◌else◌, length, Byte, first_bytes, Run, ret, overrun,
}
use in_lib.Unix.{Socket, open_socket}
use in_lib.Packet.{max_links}

-- What a `FILE` has been written, and whether it was closed.
pub record File : Type 0 where
  pub contents : List Byte
  pub closed : Bool

-- `struct link`; `file_size` counts down to 0.
pub record Link : Type 0 where
  pub port : ℕ
  pub mip : ℕ
  pub file_size : ℕ
  pub file : File

-- The index, or `none` for -1.
unfoldable pub check_link : ℕ → ℕ → List Link → Option ℕ
check_link port mip [] = none
check_link port mip (l ∷ links) =
    let later = check_link port mip links in
    if (l.port == port) && (l.mip == mip)
    then some 0
    else elim later [ none ↦ none | some i ↦ some (suc i) ]

-- `none` for the null pointer.
unfoldable pub get_file : ℕ → ℕ → List Link → Option File
get_file port mip [] = none
get_file port mip (l ∷ links) =
    let later = get_file port mip links in
    if (l.port == port) && (l.mip == mip) then some l.file else later

-- The array holds `max_links` of them, and is not checked.
unfoldable pub create_new_link : ℕ → ℕ → ℕ → List Link → Run (List Link)
create_new_link port mip file_size links =
    if ltb (length links) max_links
    then ret (
        links
        ++ (record {
          port = port;
          mip = mip;
          file_size = file_size;
          file = record { contents = []; closed = false };
        }
            ∷ []))
    else overrun

unfoldable pub connect_to_miptp : Socket → Run ℕ
connect_to_miptp s = open_socket s

unfoldable pub write_identifying_msg : ℕ → List Byte
write_identifying_msg my_port = first_bytes 1 (my_port ∷ [])

-- The file that `get_file` finds is that of the link at the index which `check_link` gives.
get_file-check_link :
    (port mip i : ℕ) (links : List Link)
    → check_link port mip links ≡ some i
    → get_file port mip links ≡ elim (get_elem? links i) [ none ↦ none | some l ↦ some l.file ]
unfolding check_link get_file
get_file-check_link port mip i [] h = absurd (cc)
get_file-check_link port mip zero (l ∷ links) h = ground arith
get_file-check_link port mip (suc i) (l ∷ links) h =
    ground (arith, get_file-check_link port mip i links)
