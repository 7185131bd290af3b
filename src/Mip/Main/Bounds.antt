-- ===== src/Mip/Main/Bounds.antt =====
-- mip_daemon.c: what holds of every run of the daemon.
use in_lib.Base.{ℕ, refl, List, Option, none, some, All, Ends, Ends->>=, arith}
use in_lib.Unix.{open_socket-Ends}
use in_lib.Mip.Forward.Bounds.{Fits}
use in_lib.Mip.Daemon.Bounds.{IsFds}
use in_lib.Mip.Loop.{Poll}
use in_lib.Mip.Loop.Bounds.{IsPoll, KeepsDaemon, poll_loop-KeepsDaemon}
use in_lib.Mip.Main.{setup_unix_socket, listen_unix_socket, setup_raw_socket, no_fds, Startup, main}

setup_raw_socket-IsFds :
    (socket : Option ℕ) (sock_server : ℕ)
    → Ends IsFds (setup_raw_socket socket (listen_unix_socket sock_server no_fds))
unfolding setup_raw_socket listen_unix_socket
setup_raw_socket-IsFds none sock_server = tt
setup_raw_socket-IsFds (some raw_sock) sock_server = refl

-- A run of the daemon with any events and any results of the system calls, as long as what is read
-- are bytes, and the lengths in the two head nodes fit their nine bits: it ends; and if it neither
-- ends by `exit` nor leaves an array, then at the end `fds` has its seven slots, the cache has at
-- most four entries and no two for one address, and the lengths in both queues fit nine bits, and
-- none of the frames that were sent is longer than 2048 bytes.
pub main-KeepsDaemon :
    (s : Startup) (mip_addr : ℕ) (polls : List Poll)
    → Fits s.routing_head
    → Fits s.arp_head
    → All IsPoll polls
    → Ends KeepsDaemon (main s mip_addr polls)
unfolding main setup_unix_socket
main-KeepsDaemon s mip_addr polls routing arp bytes =
    Ends->>= (λ _. Unit) KeepsDaemon _ _ (open_socket-Ends s.unix_socket)
      (λ sock_server _.
        Ends->>= IsFds KeepsDaemon _ _ (setup_raw_socket-IsFds s.raw_socket sock_server)
          (λ fds slots. poll_loop-KeepsDaemon polls s.now mip_addr _ bytes (record {
            slots = slots;
            globals = record {
              table = record { distinct = tt; fits = omega arith };
              routing = record { head_fits = routing; all_fit = tt };
              arp = record { head_fits = arp; all_fit = tt };
            };
          })))
