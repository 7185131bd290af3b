-- ===== src/Miptp/Startup.antt =====
-- `main` of miptp_daemon.c, from its two sockets to the end of the loop.
use in_lib.Base.{false, ℕ, List, [], ◌∷◌, Run, ret, ◌>>=◌, Ends, Ends->>=}
use in_lib.Unix.{Socket, open_socket, open_socket-Ends}
use in_lib.Miptp.Host.{Writes, write_identifying_msg}
use in_lib.Miptp.Main.{Miptp, Round, run}
use in_lib.Miptp.Main.Invariant.{KeepsPorts, run-KeepsPorts}

-- The file descriptors in `fds[0]` and `fds[1]`.
unfoldable pub connect_to_mip_daemon : Socket → Run ℕ
connect_to_mip_daemon s = open_socket s

unfoldable pub setup_unix_socket : Socket → Run ℕ
setup_unix_socket s = open_socket s

unfoldable pub main : Socket → Socket → ℕ → List Round → Run (Miptp × Writes)
unfolding connect_to_mip_daemon setup_unix_socket
main lower higher timeout rs = connect_to_mip_daemon lower >>= λ mip_fd.
    setup_unix_socket higher >>= λ connection_socket.
    run mip_fd timeout rs (record { hosts = []; app_fds = []; done = false }) >>= λ r.
    ret (r.0, write_identifying_msg mip_fd ∷ r.1)

-- The MIPTP daemon, with any sockets, any timeout, and over any rounds with any messages and
-- requests, ends: by `exit`, by leaving an array, or with hosts of which no two have the same port,
-- other than 0 for none.
pub main-KeepsPorts :
    (lower higher : Socket) (timeout : ℕ) (rs : List Round)
    → Ends KeepsPorts (main lower higher timeout rs)
unfolding main connect_to_mip_daemon setup_unix_socket
main-KeepsPorts lower higher timeout rs =
    Ends->>= (λ _. Unit) KeepsPorts _ _ (open_socket-Ends lower)
      (λ mip_fd _.
        Ends->>= (λ _. Unit) KeepsPorts _ _ (open_socket-Ends higher)
          (λ fd _.
            Ends->>= KeepsPorts KeepsPorts _ _ (run-KeepsPorts mip_fd timeout rs _ tt) (λ r k. k)))
