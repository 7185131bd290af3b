-- ===== src/Mip/Main.antt =====
-- `main` of mip_daemon.c, and the functions that fill the first two slots of `fds`. What `socket` and
-- `bind` return is an argument: `none` for -1, `false` for a failure.
pub mod Bounds
mod Tests
use in_lib.Base.{
  ℕ, Bool, true, false, List, [], ◌∷◌, Option, none, some, if◌then◌else◌, ltb, length, get_or, set,
  Byte, Run, ret, failed, overrun, ◌>>=◌,
}
use in_lib.Unix.{Socket, open_socket}
use in_lib.Mip.Wire.{RawPacket}
use in_lib.Mip.Link.{Outputs}
use in_lib.Mip.Daemon.{Events, PollFd, zero_fd, Daemon}
use in_lib.Mip.Loop.{Poll, poll_loop}

unfoldable pub setup_unix_socket : Socket → Run ℕ
setup_unix_socket s = open_socket s

abbrev watched : ℕ → PollFd → PollFd
watched fd slot = record slot { fd = fd; events = record { pollin = true; pollhup = true } }

unfoldable pub listen_unix_socket : ℕ → List PollFd → List PollFd
listen_unix_socket sock_server fds = set fds 0 (watched sock_server (get_or fds 0 zero_fd))

unfoldable pub setup_raw_socket : Option ℕ → List PollFd → Run (List PollFd)
setup_raw_socket none fds = failed
setup_raw_socket (some raw_sock) fds = ret (set fds 1 (watched raw_sock (get_or fds 1 zero_fd)))

-- `memset(fds, 0, sizeof(fds))`.
abbrev pub no_fds : List PollFd
no_fds = zero_fd ∷ zero_fd ∷ zero_fd ∷ zero_fd ∷ zero_fd ∷ zero_fd ∷ zero_fd ∷ []

-- What comes from outside: what the system calls for the sockets return, what `malloc` gives to the heads
-- of the two queues, the time, and the returns of `poll`.
pub record Startup : Type 0 where
  pub unix_socket : Socket
  pub raw_socket : Option ℕ
  pub routing_head : RawPacket
  pub arp_head : RawPacket
  pub now : ℕ

unfoldable pub main : Startup → ℕ → List Poll → Run (Daemon × Outputs)
unfolding setup_unix_socket listen_unix_socket setup_raw_socket
main s mip_addr polls = setup_unix_socket s.unix_socket >>= λ sock_server.
    setup_raw_socket s.raw_socket (listen_unix_socket sock_server no_fds) >>= λ fds.
    poll_loop polls s.now mip_addr (record {
      fds = fds;
      mip = record {
        cache_table = [];
        routing_queue = record { head = s.routing_head; waiting = [] };
        arp_queue = record { head = s.arp_head; waiting = [] };
      };
    })
