-- ===== src/Network/Routers/Tests.antt =====
-- Concrete routing daemons on a line: 10, 20 and 30.
use in_lib.Base.{ℕ, ◌<◌, ◌≤◌, ◌+◌, ◌≡◌, refl, ◌⊎◌, inl, inr, [], ◌∷◌, some, arith}
use in_lib.Routing.Advertise.{update_for, store}
use in_lib.Mip.Wire.{RawPacket, create_mip_hdr, hdr_bytes, hdr_of}
use in_lib.Mip.Queue.{WaitingQueue}
use in_lib.Mip.Forward.{update_frame, write_to_unix_socket}
use in_lib.Mip.Daemon.{zero_fd, dispatch_raw}
use in_lib.Routing.Table.{Node, handle_hello, lookup}
use in_lib.Routing.Table.Entry.{entry}
use in_lib.Routing.Broken.{broken_mips, mark_all, update_broken_paths}
use in_lib.Routing.Update.{pairs_of, apply_pairs, apply_pair, update_routing_list}
use in_lib.Network.Routers.{Below, Routers, hello, advertise, update, Reach, started, later, Walk}
use in_lib.Network.Routers.Learning.{line_learns}
use in_lib.Network.Routers.Distances.{distance_is_Walk}

abbrev Linked : ℕ → ℕ → Type 0
Linked a b = (b ≡ a + 10) ⊎ (a ≡ b + 10)

back : (a b : ℕ) → Linked a b → Linked b a
back a b (inl e) = inr e
back a b (inr e) = inl e

abbrev zero_packet : RawPacket
zero_packet = record {
  hdr = record { dst = 0; src = 0; ttl = 0; sdu_len = 0; sdu_type = 0 };
  sdu = [];
}

abbrev no_packets : WaitingQueue
no_packets = record { head = zero_packet; waiting = [] }

abbrev below : Below
below = record {
  mip = record { cache_table = []; routing_queue = no_packets; arp_queue = no_packets };
  fds = zero_fd ∷ zero_fd ∷ zero_fd ∷ record zero_fd { fd = 1 } ∷ [];
  ifaces = [];
  stack = [];
  iface = 0;
  mac = [];
}

abbrev thirty : Node
thirty = record { mip = 30; distance = 2; next_mip = 20; last_rcv = 103 }

-- 20 tells 10 of 30.
line : (r : Routers) × Reach Linked r × (entry 30 (r.tables 10) ≡ some thirty)
unfolding handle_hello update_routing_list entry pairs_of update_broken_paths broken_mips
    apply_pairs apply_pair mark_all update_for update_frame dispatch_raw write_to_unix_socket
    create_mip_hdr hdr_bytes hdr_of store
line = (
  _,
  later
      (later
        (later
          (later (later started (hello 20 30 100 (inl (omega arith))))
            (hello 20 10 101 (inr (omega arith))))
          (hello 10 20 102 (inl (omega arith))))
        (advertise 20 1 _ below _ refl refl (omega arith) (omega arith) (omega arith) (omega arith)
          refl))
      (update 0 103 _ _ _ refl (inl (omega arith), tt) refl),
  refl,
)

distance_is_Walk_example : Walk Linked 10 30 2
distance_is_Walk_example =
    distance_is_Walk Linked back line.0 10 30 thirty line.1 line.2 (omega arith)

abbrev Beside : ℕ → ℕ → Type 0
Beside a b = (b ≡ 1 + a) ⊎ (a ≡ 1 + b)

line_learns_example :
    (r : Routers) × Reach Beside r × ((m : ℕ) → 0 < m → m ≤ 4 → lookup 1 (r.tables (1 + m)) ≡ m)
line_learns_example = line_learns Beside (λ m. (inl refl, inr refl)) 4 (omega arith) (omega arith)
