-- ===== src/Network/Routers/Way.antt =====
-- On a line of hosts: the update that carries the way to its first host on by one link.
use in_lib.Base.{
  ℕ, List, Byte, length, get_or, ap₂, ◌||◌, ◌>>=◌, suc, ◌+◌, ◌%◌, ◌≤◌, ◌<◌, ◌≡◌, refl, sym, ◌∙◌,
  subst, inl, true, false, [], ◌∷◌, ==-ne, ◌==◌, All, ret, arith,
}
use in_lib.Packet.{UnixPacket, of_bytes}
use in_lib.Routing.Table.{
  Node, RoutingList, max_distance, handle_hello, hear, add_to_linked_list, lookup,
}
use in_lib.Routing.Broken.{update_broken_paths, broken_mips, mark_all}
use in_lib.Routing.Update.{update_routing_list, announced, pairs_of, apply_pairs, apply_pair, scan}
use in_lib.Routing.Update.Distances.{IsKnown}
use in_lib.Routing.Advertise.{update_for}
use in_lib.Routing.Advertise.Decode.{advert, update_for_lem}
use in_lib.Mip.Wire.{RawPacket}
use in_lib.Mip.Queue.{WaitingQueue}
use in_lib.Mip.Link.{write}
use in_lib.Mip.Forward.{update_frame}
use in_lib.Mip.Daemon.{zero_fd, dispatch_raw}
use in_lib.Mip.Daemon.Clients.{arrives}
use in_lib.Network.Updates.{update_reaches_neighbour}
use in_lib.Network.Routers.{Below}

-- The way to host 1, over `n` links.
abbrev pub way : ℕ → Node
way n = record { mip = 1; distance = n; next_mip = n; last_rcv = 0 }

-- The host behind host `1 + n`.
abbrev pub next_host : ℕ → Node
next_host n = record { mip = 2 + n; distance = 1; next_mip = 2 + n; last_rcv = 0 }

abbrev update_from : ℕ → UnixPacket
update_from n = record { mip = 1 + n; ttl = 1; msg = b'U' ∷ b'P' ∷ b'D' ∷ 1 ∷ 1 ∷ n ∷ [] }

pub hears_next :
    (n : ℕ) → 0 < n → (handle_hello (2 + n) 0 (way n ∷ [])).0 ≡ way n ∷ next_host n ∷ []
unfolding handle_hello hear add_to_linked_list
hears_next n pos = ground arith

advert-way :
    (n : ℕ) → 0 < n → announced (update_from n) ≡ advert (next_host n) (way n ∷ next_host n ∷ [])
unfolding pairs_of
advert-way n pos = ground arith

abbrev zero_packet : RawPacket
zero_packet = record {
  hdr = record { dst = 0; src = 0; ttl = 0; sdu_len = 0; sdu_type = 0 };
  sdu = [];
}

abbrev no_packets : WaitingQueue
no_packets = record { head = zero_packet; waiting = [] }

-- A MIP daemon with its routing daemon at socket 1.
abbrev pub quiet_daemon : Below
quiet_daemon = record {
  mip = record { cache_table = []; routing_queue = no_packets; arp_queue = no_packets };
  fds = zero_fd ∷ zero_fd ∷ zero_fd ∷ record zero_fd { fd = 1 } ∷ [];
  ifaces = [];
  stack = [];
  iface = 0;
  mac = [];
}

-- The packet says the same as `update_from`.
pub IsFrom : ℕ → UnixPacket → Type 0
IsFrom n packet = (packet.mip ≡ 1 + n) × (announced packet ≡ announced (update_from n))

few_pairs : (n : ℕ) → 0 < n → length (advert (next_host n) (way n ∷ next_host n ∷ [])) ≤ 29
few_pairs n pos = ground arith

-- The update that host `1 + n` sends on to the next one, as that reads it.
pub way_sent :
    (n : ℕ)
    → 0 < n
    → n < 254
    → (up : List Byte) × IsFrom n (of_bytes up)
      × (get_or (of_bytes (update_for (next_host n) (way n ∷ next_host n ∷ []))).msg 3 0 ≤ 29)
      × (dispatch_raw
            (arrives
              (update_frame
                (of_bytes (update_for (next_host n) (way n ∷ next_host n ∷ [])))
                (1 + n))
              0
              [])
            (2 + n)
            []
            []
            quiet_daemon.fds
            quiet_daemon.mip
          ≡ ret (quiet_daemon.mip, write 1 up ∷ []))
unfolding IsFrom
way_sent n pos short =
    let t : RoutingList = way n ∷ next_host n ∷ [] in
    let (_, _, count, _) = update_for_lem (next_host n) t (omega arith) in
    let (up, e, from, _, pairs) =
      update_reaches_neighbour (next_host n) t (1 + n) (2 + n) 0 1 [] [] [] quiet_daemon.fds
        quiet_daemon.mip (omega arith) (few_pairs n pos) (omega arith) refl (omega arith) in
    (up, (from, pairs ∙ sym (advert-way n pos)), omega (arith, count, few_pairs n pos), e)

none_broken : (m : Node) → (m.distance == max_distance) ≡ false → broken_mips (m ∷ []) ≡ []
unfolding broken_mips
none_broken m finite = rw finite refl

-- A table of one node that can be reached needs no repair.
one_node :
    (m : Node)
    → (m.distance == max_distance) ≡ false
    → update_broken_paths 2 (m ∷ []) ≡ ret (m ∷ [], false)
unfolding update_broken_paths mark_all
one_node m finite = ground (arith, none_broken m finite)

learns_way_from :
    (n : ℕ) → n < 254 → update_routing_list (update_from n) 0 [] ≡ ret (way (1 + n) ∷ [], true)
unfolding update_routing_list pairs_of apply_pairs apply_pair scan add_to_linked_list
learns_way_from n short =
    let small : (n + 1) % 256 ≡ 1 + n = omega arith in
    let finite : (1 + n == max_distance) ≡ false = ==-ne _ _ (omega arith) in
    rw (small, one_node (way (1 + n)) finite) refl

pub learns_way :
    (n : ℕ) (packet : UnixPacket)
    → n < 254
    → IsFrom n packet
    → update_routing_list packet 0 [] ≡ ret (way (1 + n) ∷ [], true)
unfolding update_routing_list IsFrom
learns_way n packet short (from, pairs) =
    ap₂
      (λ s ps.
        let merged = apply_pairs s 0 ps [] in
        update_broken_paths (suc (length merged.0)) merged.0 >>= λ r. ret (r.0, merged.1 || r.1))
      from pairs
    ∙ learns_way_from n short

pub IsKnown-way :
    (n : ℕ) (packet : UnixPacket) (t : RoutingList)
    → n < 254
    → IsFrom n packet
    → All (IsKnown t) (announced packet)
unfolding pairs_of IsFrom
IsKnown-way n packet t short (from, pairs) =
    subst (All (IsKnown t)) (sym pairs) (inl (omega arith), tt)

pub lookup-way : (n : ℕ) (rest : RoutingList) → n < 255 → lookup 1 (way n ∷ rest) ≡ n
unfolding lookup
lookup-way n rest short = ground arith
