-- ===== src/Network/Files.antt =====
-- A file from the client to the server of the file transfer: every message that the client writes
-- is handed over by the transport layer, as `Network.Messages` has it.
use in_lib.Base.{
  ℕ, zero, suc, ◌+◌, ◌-◌, ◌%◌, ◌≤◌, ◌<◌, ◌≡◌, refl, sym, ap, ◌∙◌, ◌≢◌, true, false, not, List, [],
  ◌∷◌, ◌++◌, map, Option, none, some, append-nil, append_assoc, ltb, ◌==◌, length, take, drop,
  length-drop, Byte, All, ret, ◌>>=◌, arith,
}
use in_lib.Base.{◌||◌, ==-ne, length-append}
use in_lib.Base.{take-drop, All-take, All-drop, length-take-le, length-take-drop}
use in_lib.Packet.{max_links}
use in_lib.FileTransfer.Links.{Link, check_link, create_new_link}
use in_lib.FileTransfer.Server.{receive_file, serve, ntohl}
use in_lib.FileTransfer.Server.Store.{receive_file-chunk}
use in_lib.FileTransfer.Client.{size_message, chunks, send_file}
use in_lib.Network.Messages.{handed_over, handed_over_even}

abbrev pub arrivals : ℕ → ℕ → List (List Byte) → List (Option (List Byte))
arrivals mip port = map (λ (bytes : List Byte). some (handed_over bytes mip port))

-- A link with the rest of its file.
abbrev pub stored : Link → List Byte → Link
stored l file = record l {
  file_size = 0;
  file = record {
    contents = l.file.contents ++ file;
    closed = l.file.closed || not (length file == 0);
  };
}

-- One message with bytes of the file.
serve-chunk :
    (mip port d dp : ℕ) (sdu : List Byte) (more : List (List Byte)) (links : List Link) (l : Link)
    → check_link port mip links ≡ none
    → l.port ≡ port
    → l.mip ≡ mip
    → l.file.closed ≡ false
    → All (λ b. b ≢ 0) sdu
    → length sdu % 2 ≡ 0
    → length sdu < 4094
    → length sdu ≤ l.file_size
    → l.file_size < 4294967296
    → serve (arrivals mip port ((d ∷ dp ∷ sdu) ∷ more)) (links ++ (l ∷ []))
      ≡ serve (arrivals mip port more) (
          links
          ++ (record l {
            file_size = l.file_size - length sdu;
            file = record {
              contents = l.file.contents ++ sdu;
              closed = l.file_size - length sdu == 0;
            };
          }
              ∷ []))
unfolding serve
serve-chunk mip port d dp sdu more links l h p m is_open nul even short fits size =
    rw
      (
        handed_over_even (d ∷ dp ∷ sdu) mip port (omega arith),
        serve,
        receive_file-chunk port mip sdu links l h p m is_open nul short fits size,
      )
      refl

-- The statement of `serve-chunks`, for what is left of the file.
abbrev Delivers : ℕ → ℕ → ℕ → ℕ → ℕ → List Byte → List Link → Link → Type 0
Delivers fuel mip port d dp file links l =
    (ms : List (List Byte)) × (chunks fuel d dp file ≡ ret ms)
    × (serve (arrivals mip port ms) (links ++ (l ∷ [])) ≡ ret (links ++ (stored l file ∷ [])))

stored-nil : (l : Link) → l.file_size ≡ 0 → stored l [] ≡ l
stored-nil l e = ground (arith, append-nil l.file.contents)

stored-append :
    (l : Link) (xs ys : List Byte)
    → l.file_size ≡ length xs + length ys
    → 0 < length xs + length ys
    → stored
        (record l {
          file_size = l.file_size - length xs;
          file = record { contents = l.file.contents ++ xs; closed = l.file_size - length xs == 0 };
        })
        ys
      ≡ stored l (xs ++ ys)
stored-append l xs ys size some_left =
    ground (arith, append_assoc l.file.contents xs ys, length-append xs ys)

-- The link after the first chunk.
abbrev next_link : Link → List Byte → Link
next_link l file = record l {
  file_size = l.file_size - length (take 1400 file);
  file = record {
    contents = l.file.contents ++ take 1400 file;
    closed = l.file_size - length (take 1400 file) == 0;
  };
}

stored-next_link :
    (l : Link) (b : Byte) (bytes : List Byte)
    → l.file_size ≡ length (b ∷ bytes)
    → stored (next_link l (b ∷ bytes)) (drop 1400 (b ∷ bytes)) ≡ stored l (b ∷ bytes)
stored-next_link l b bytes size =
    let total = length-take-drop 1400 (b ∷ bytes) in
    let at_once =
      stored-append l (take 1400 (b ∷ bytes)) (drop 1400 (b ∷ bytes)) (omega arith) (omega arith) in
    at_once ∙ ap (stored l) (take-drop 1400 (b ∷ bytes))

chunks-cons :
    (fuel d dp : ℕ) (b : Byte) (bytes : List Byte) (ms : List (List Byte))
    → chunks fuel d dp (drop 1400 (b ∷ bytes)) ≡ ret ms
    → chunks (suc fuel) d dp (b ∷ bytes) ≡ ret ((d ∷ dp ∷ take 1400 (b ∷ bytes)) ∷ ms)
unfolding chunks
chunks-cons fuel d dp b bytes ms e =
    ap (λ r. r >>= λ more. ret ((d ∷ dp ∷ take 1400 (b ∷ bytes)) ∷ more)) e

serve-chunks :
    (fuel mip port d dp : ℕ) (file : List Byte) (links : List Link) (l : Link)
    → check_link port mip links ≡ none
    → l.port ≡ port
    → l.mip ≡ mip
    → (0 < length file → l.file.closed ≡ false)
    → All (λ b. b ≢ 0) file
    → length file % 2 ≡ 0
    → length file < fuel
    → l.file_size ≡ length file
    → l.file_size < 4294967296
    → Delivers fuel mip port d dp file links l
unfolding chunks serve
serve-chunks zero mip port d dp file links l h p m is_open nul even enough size small =
    absurd (omega arith)
serve-chunks (suc fuel) mip port d dp [] links l h p m is_open nul even enough size small =
    ([], refl, ap (λ k. ret (links ++ (k ∷ []))) (sym (stored-nil l size)))
serve-chunks (suc fuel) mip port d dp (b ∷ bytes) links l h p m is_open nul even enough size small =
    let file : List Byte = b ∷ bytes in
    let total = length-take-drop 1400 file in
    let short = length-take-le 1400 file in
    let dropped = length-drop 1400 file in
    let (ms, sent, served) =
      serve-chunks fuel mip port d dp (drop 1400 file) links (next_link l file) h p m
        (λ rest. ==-ne _ 0 (omega arith)) (All-drop _ 1400 file nul) (omega arith) (omega arith)
        (omega arith) (omega arith) in
    (
      (d ∷ dp ∷ take 1400 file) ∷ ms,
      chunks-cons fuel d dp b bytes ms sent,
      serve-chunk mip port d dp (take 1400 file) ms links l h p m (is_open (omega arith))
            (All-take _ 1400 file nul) (omega arith) (omega arith) (omega arith) small
          ∙ served
          ∙ ap (λ k. ret (links ++ (k ∷ []))) (stored-next_link l b bytes size),
    )

handed_over-size_message :
    (d dp mip port size : ℕ)
    → handed_over (size_message d dp size) mip port ≡ mip ∷ port ∷ drop 2 (size_message d dp size)
unfolding size_message handed_over
handed_over-size_message d dp mip port size = refl

ntohl-size_message :
    (d dp size : ℕ) → size < 4294967296 → ntohl (drop 2 (size_message d dp size)) ≡ size
unfolding size_message
ntohl-size_message d dp size small = omega arith

abbrev fresh_link : ℕ → ℕ → ℕ → Link
fresh_link port mip size = record {
  port = port;
  mip = mip;
  file_size = size;
  file = record { contents = []; closed = false };
}

serve-size_message :
    (d dp mip port size : ℕ) (more : List (List Byte)) (links : List Link)
    → check_link port mip links ≡ none
    → length links < max_links
    → size < 4294967296
    → serve (arrivals mip port (size_message d dp size ∷ more)) links
      ≡ serve (arrivals mip port more) (links ++ (fresh_link port mip size ∷ []))
unfolding serve receive_file create_new_link
serve-size_message d dp mip port size more links h room small =
    let free : ltb (length links) 30 ≡ true = ground arith in
    rw
      (
        handed_over-size_message d dp mip port size,
        serve,
        receive_file,
        h,
        ntohl-size_message d dp size small,
        create_new_link,
        free,
      )
      refl

-- A file of an even number of bytes, fewer than 2 ^ 32 and none of them zero, is sent to a server
-- that has no link with the sender and room for one. The client returns, and the server, handed its
-- messages in order, has the file as it was, closed if it is not empty, and its other files as they
-- were.
pub file_received :
    (d dp mip port : ℕ) (file : List Byte) (links : List Link)
    → check_link port mip links ≡ none
    → length links < max_links
    → All (λ b. b ≢ 0) file
    → length file % 2 ≡ 0
    → length file < 4294967296
    → (ms : List (List Byte)) × (send_file d dp file ≡ ret ms)
      × (serve (arrivals mip port ms) links
          ≡ ret (
              links
              ++ (record {
                port = port;
                mip = mip;
                file_size = 0;
                file = record { contents = file; closed = not (length file == 0) };
              }
                  ∷ [])))
unfolding send_file
file_received d dp mip port file links h room nul even small =
    let whole : length file % 4294967296 ≡ length file = omega arith in
    let (ms, sent, served) =
      serve-chunks (suc (length file)) mip port d dp file links (fresh_link port mip (length file))
        h refl refl (λ rest. refl) nul even (omega arith) refl small in
    (
      size_message d dp (length file) ∷ ms,
      rw (send_file, sent, whole) refl,
      serve-size_message d dp mip port (length file) ms links h room small ∙ served,
    )
