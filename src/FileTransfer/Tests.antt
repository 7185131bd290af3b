-- ===== src/FileTransfer/Tests.antt =====
-- Concrete runs of the file server.
use in_lib.Base.{strlen, ◌≡◌, refl, true, false, List, [], ◌∷◌, some, Byte, ret, failed}
use in_lib.FileTransfer.Links.{check_link, create_new_link}
use in_lib.FileTransfer.Server.{receive_file, store_chunk, serve}
use in_lib.FileTransfer.Client.{ask_port}

abbrev size_2 : List Byte
size_2 = 10 ∷ 7 ∷ 0 ∷ 0 ∷ 0 ∷ 2 ∷ 0 ∷ 0 ∷ 0 ∷ 0 ∷ []

received_text :
    serve (some size_2 ∷ some (10 ∷ 7 ∷ b'h' ∷ b'i' ∷ []) ∷ []) []
    ≡ ret (
        record {
          port = 7;
          mip = 10;
          file_size = 0;
          file = record { contents = b'h' ∷ b'i' ∷ []; closed = true };
        }
        ∷ [])
unfolding serve receive_file check_link create_new_link store_chunk strlen
received_text = refl

-- A zero byte ends the count: all bytes are there, and the file is never closed.
received_binary :
    serve (some size_2 ∷ some (10 ∷ 7 ∷ 0 ∷ b'i' ∷ []) ∷ []) []
    ≡ ret (
        record {
          port = 7;
          mip = 10;
          file_size = 2;
          file = record { contents = 0 ∷ b'i' ∷ []; closed = false };
        }
        ∷ [])
unfolding serve receive_file check_link create_new_link store_chunk strlen
received_binary = refl

-- Three refusals end the client.
refused :
    ask_port 0 (
      record { random = 300; answer = 0 ∷ 44 ∷ [] }
      ∷ record { random = 1; answer = 0 ∷ 1 ∷ [] }
      ∷ record { random = 1; answer = 0 ∷ 1 ∷ [] }
      ∷ [])
    ≡ failed
unfolding ask_port
refused = refl
