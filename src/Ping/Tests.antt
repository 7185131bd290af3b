-- ===== src/Ping/Tests.antt =====
-- Concrete runs of the two ping programs.
use in_lib.Base.{
  ◌≡◌, refl, true, false, List, [], ◌∷◌, none, some, Byte, ret, strlen, c_string, same_bytes,
}
use in_lib.Ping.Client
use in_lib.Ping.Client.{pong, answered, timed_out, disconnected, write_to_server, wait_for, Tick}
use in_lib.Ping.Server
use in_lib.Ping.Server.{write_to_socket, serve}

abbrev hi : List Byte
hi = b'h' ∷ b'i' ∷ []

-- The message is padded to twelve bytes.
written :
    write_to_server hi 2 20 5
    ≡ 20 ∷ 5 ∷ b'P' ∷ b'I' ∷ b'N' ∷ b'G' ∷ b':' ∷ b'h' ∷ b'i' ∷ 0 ∷ 0 ∷ 0 ∷ []
unfolding write_to_server
written = refl

-- The server keeps the length and the padding, and stops when the daemon is gone.
served :
    serve 3 (
      some (10 ∷ 0 ∷ b'P' ∷ b'I' ∷ b'N' ∷ b'G' ∷ b':' ∷ b'h' ∷ b'i' ∷ 0 ∷ 0 ∷ 0 ∷ [])
      ∷ none
      ∷ some (11 ∷ 0 ∷ [])
      ∷ [])
    ≡ ret ((10 ∷ 3 ∷ b'P' ∷ b'O' ∷ b'N' ∷ b'G' ∷ b':' ∷ b'h' ∷ b'i' ∷ 0 ∷ 0 ∷ 0 ∷ []) ∷ [])
unfolding serve Server.read_from_socket write_to_socket
served = refl

-- Nothing yet, another's answer, then the client's own.
answered_third :
    wait_for (pong hi) (
      record { late = false; input = none }
      ∷ record { late = false; input = some (20 ∷ 0 ∷ pong (b'h' ∷ b'o' ∷ [])) }
      ∷ record { late = false; input = some (20 ∷ 0 ∷ pong hi) }
      ∷ record { late = true; input = none }
      ∷ [])
    ≡ ret answered
unfolding wait_for Client.read_from_socket c_string strlen same_bytes
answered_third = refl

given_up :
    wait_for
      (pong hi)
      (record { late = false; input = none } ∷ record { late = true; input = none } ∷ [])
    ≡ ret timed_out
unfolding wait_for Client.read_from_socket
given_up = refl

left_alone : wait_for (pong hi) (record { late = false; input = some [] } ∷ []) ≡ ret disconnected
unfolding wait_for Client.read_from_socket
left_alone = refl
