-- ===== src/Routing/Main.antt =====
-- `main` of routing_daemon.c, from the socket to the end of the loop.
use in_lib.Base.{ℕ, List, ◌++◌, Run, ret, ◌>>=◌, Ends, Ends->>=}
use in_lib.Unix.{Socket, open_socket, open_socket-Ends}
use in_lib.Routing.Daemon.{Router, Writes, Wake, start, run}
use in_lib.Routing.Daemon.Invariant.{KeepsRouter, run-Ends}

unfoldable pub socket_setup : Socket → Run ℕ
socket_setup s = open_socket s

-- `now` is the clock after the first hello. All is written to the one socket.
unfoldable pub main : Socket → ℕ → List Wake → Run (Router × Writes)
unfolding socket_setup
main s now ws =
    socket_setup s >>= λ sock_server. run ws (start now).0 >>= λ r. ret (r.0, (start now).1 ++ r.1)

-- The routing daemon, with any socket, over any rounds, with any input and any clock, ends: by
-- returning with one entry for each address in its table, by `exit`, or by leaving an array. The
-- loops inside a round never run for ever.
pub main-Ends : (s : Socket) (now : ℕ) (ws : List Wake) → Ends KeepsRouter (main s now ws)
unfolding main socket_setup start
main-Ends s now ws =
    Ends->>= (λ _. Unit) KeepsRouter _ _ (open_socket-Ends s)
      (λ fd _. Ends->>= KeepsRouter KeepsRouter _ _ (run-Ends ws (start now).0 tt) (λ r k. k))
