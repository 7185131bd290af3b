-- ===== src/FileTransfer/Server/Store.antt =====
-- What the server does with the bytes of a file whose link is the last one.
use in_lib.Base.{
  strlen_no_nul, ℕ, ◌-◌, ◌≤◌, ◌<◌, ◌≡◌, refl, ap, ◌∙◌, ◌≢◌, false, List, [], ◌∷◌, ◌++◌, none, some,
  ◌==◌, length, get_elem?, set, Byte, All, ret, arith,
}
use in_lib.FileTransfer.Links.{Link, check_link}
use in_lib.FileTransfer.Server.{store_chunk, receive_file}

pub check_link-snoc :
    (port mip : ℕ) (links : List Link) (l : Link)
    → check_link port mip links ≡ none
    → l.port ≡ port
    → l.mip ≡ mip
    → check_link port mip (links ++ (l ∷ [])) ≡ some (length links)
unfolding check_link
check_link-snoc port mip [] l h p m = ground arith
check_link-snoc port mip (k ∷ links) l h p m = ground (arith, check_link-snoc port mip links l)

get_elem?-snoc :
    (links : List Link) (l : Link) → get_elem? (links ++ (l ∷ [])) (length links) ≡ some l
get_elem?-snoc [] l = refl
get_elem?-snoc (k ∷ links) l = get_elem?-snoc links l

set-snoc :
    (links : List Link) (l l' : Link)
    → set (links ++ (l ∷ [])) (length links) l' ≡ links ++ (l' ∷ [])
set-snoc [] l l' = refl
set-snoc (k ∷ links) l l' = ap (◌∷◌ k) (set-snoc links l l')

store_chunk-no_nul :
    (port mip index : ℕ) (sdu : List Byte) (l : Link) (links : List Link)
    → l.file.closed ≡ false
    → All (λ b. b ≢ 0) sdu
    → length sdu < 4094
    → length sdu ≤ l.file_size
    → l.file_size < 4294967296
    → store_chunk (mip ∷ port ∷ sdu) index l links
      ≡ ret (
          set links index (record l {
            file_size = l.file_size - length sdu;
            file = record {
              contents = l.file.contents ++ sdu;
              closed = l.file_size - length sdu == 0;
            };
          }))
unfolding store_chunk
store_chunk-no_nul port mip index sdu l links is_open nul short fits size =
    ground (arith, strlen_no_nul sdu nul)

-- Bytes without a zero, no more than are missing, are appended to the file and counted. The file is
-- closed with the last of them.
pub receive_file-chunk :
    (port mip : ℕ) (sdu : List Byte) (links : List Link) (l : Link)
    → check_link port mip links ≡ none
    → l.port ≡ port
    → l.mip ≡ mip
    → l.file.closed ≡ false
    → All (λ b. b ≢ 0) sdu
    → length sdu < 4094
    → length sdu ≤ l.file_size
    → l.file_size < 4294967296
    → receive_file (mip ∷ port ∷ sdu) (links ++ (l ∷ []))
      ≡ ret (
          links
          ++ (record l {
            file_size = l.file_size - length sdu;
            file = record {
              contents = l.file.contents ++ sdu;
              closed = l.file_size - length sdu == 0;
            };
          }
              ∷ []))
unfolding receive_file
receive_file-chunk port mip sdu links l h p m is_open nul short fits size =
    rw (receive_file, check_link-snoc port mip links l h p m, get_elem?-snoc)
      (store_chunk-no_nul port mip (length links) sdu l (links ++ (l ∷ [])) is_open nul short fits
          size
        ∙ ap ret (set-snoc links l _))
