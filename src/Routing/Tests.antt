-- ===== src/Routing/Tests.antt =====
-- Concrete runs of the routing daemon: host 10 with the neighbours 20 and 30, and with 40 behind 20.
use in_lib.Base.{
  ℕ, get_elem?, ◌≡◌, refl, ◌≢◌, ◌⊎◌, Bool, true, false, [], ◌∷◌, map, none, some, ◌==◌,
  if◌then◌else◌, length, get_or, All, Distinct, starts_with3, ret, Ends, arith,
}
use in_lib.Packet.{UnixPacket, of_bytes}
use in_lib.Routing.Table.{
  Node, RoutingList, max_distance, handle_hello, lookup, mips, add_to_linked_list,
}
use in_lib.Routing.Table.Entry.{entry}
use in_lib.Routing.Table.Hello.{refreshed, is_news, handle_hello_lem, handle_hello-Distinct}
use in_lib.Routing.Broken.{update_broken_paths, broken_mips, mark_all, mark_via}
use in_lib.Routing.Broken.Settled.{Repairs, update_broken_paths_lem}
use in_lib.Routing.Broken.Exact.{IsLost, unreachable, update_broken_paths_exact}
use in_lib.Routing.Update.{apply_pair, apply_pairs, pairs_of, update_routing_list, announced}
use in_lib.Routing.Update.Merge.{merged, entry-apply_pair}
use in_lib.Routing.Update.Sound.{Updates, update_routing_list_lem}
use in_lib.Routing.Update.Hops.{
  unreachable_becomes_route, lookup-update_keeps_hop, lookup-update_reachable_hop,
}
use in_lib.Routing.Advertise.{update_for}
use in_lib.Routing.Advertise.Decode.{advert, update_for_lem}
use in_lib.Routing.Daemon.{Router, Wake, identify_broken_path}
use in_lib.Routing.Daemon.Expiry.{
  is_silent, aged, identify_broken_path_lem, identify_broken_path_quiet,
}
use in_lib.Routing.Daemon.Invariant.{KeepsRouter}
use in_lib.Unix.{Socket}
use in_lib.Routing.Main.{main, main-Ends}

abbrev twenty : Node
twenty = record { mip = 20; distance = 1; next_mip = 20; last_rcv = 100 }

abbrev thirty : Node
thirty = record { mip = 30; distance = 1; next_mip = 30; last_rcv = 109 }

abbrev forty : Node
forty = record { mip = 40; distance = 2; next_mip = 20; last_rcv = 100 }

abbrev table : RoutingList
table = twenty ∷ thirty ∷ forty ∷ []

-- Of these, 20 is lost, and 40 with it.
abbrev broken : RoutingList
broken = record twenty { distance = max_distance } ∷ thirty ∷ forty ∷ []

-- 20 announces 30 at distance 2, 40 as lost, and the unknown 50 as lost.
abbrev update : UnixPacket
update = record {
  mip = 20;
  ttl = 1;
  msg = b'U' ∷ b'P' ∷ b'D' ∷ 3 ∷ 30 ∷ 2 ∷ 40 ∷ 255 ∷ 50 ∷ 255 ∷ [];
}

abbrev quiet : UnixPacket
quiet = record { mip = 20; ttl = 1; msg = b'U' ∷ b'P' ∷ b'D' ∷ 1 ∷ 40 ∷ 255 ∷ [] }

abbrev after_quiet : RoutingList
after_quiet = twenty ∷ thirty ∷ record forty { distance = max_distance } ∷ []

abbrev router : Router
router = record { table = table; buffer = []; done = false; time_sent_hlo = 100 }

abbrev hello_from_50 : Wake
hello_from_50 = record {
  current_time = 110;
  hello_time = 110;
  check_time = 110;
  receive_time = 110;
  pollhup = false;
  pollin = true;
  input = some (50 ∷ 1 ∷ b'H' ∷ b'L' ∷ b'O' ∷ []);
}

update_routing_list-quiet : update_routing_list quiet 110 table ≡ ret (after_quiet, true)
unfolding update_routing_list update_broken_paths broken_mips apply_pairs pairs_of apply_pair
    mark_all mark_via
update_routing_list-quiet = refl

-- 50 is not known, and the lost 50 of the update becomes a route.
update_routing_list_lost :
    (t' : RoutingList) × (update_routing_list update 110 table ≡ ret (t', true))
    × (lookup 50 t' ≡ 20)
    × (lookup 40 t' ≡ 255)
unfolding update_routing_list lookup update_broken_paths broken_mips apply_pairs pairs_of apply_pair
    add_to_linked_list mark_all mark_via
update_routing_list_lost = (
  twenty
      ∷ record thirty { distance = 1 }
      ∷ record forty { distance = 255 }
      ∷ record { mip = 50; distance = 0; next_mip = 20; last_rcv = 110 }
      ∷ [],
  refl,
  refl,
  refl,
)

table-Distinct : Distinct (mips table)
table-Distinct = ground arith

handle_hello_lem_example :
    (entry 50 (handle_hello 50 110 table).0
      ≡ (if 50 == 50 then some (refreshed 50 110 (entry 50 table)) else entry 50 table))
    × ((handle_hello 50 110 table).1 ≡ is_news (entry 50 table))
handle_hello_lem_example = handle_hello_lem 50 110 50 table

handle_hello-Distinct_example : Distinct (mips (handle_hello 50 110 table).0)
handle_hello-Distinct_example = handle_hello-Distinct 50 110 table table-Distinct

update_broken_paths_lem_example :
    (t' : RoutingList) × (change : Bool) × (update_broken_paths 4 broken ≡ ret (t', change))
    × Repairs broken t' change
update_broken_paths_lem_example = update_broken_paths_lem 4 broken (omega arith) (omega arith)

update_broken_paths_exact_example :
    (t' : RoutingList) × (change : Bool) × (update_broken_paths 4 broken ≡ ret (t', change))
    × ((i : ℕ) (n : Node)
        → get_elem? broken i ≡ some n
        → (n' : Node) × (get_elem? t' i ≡ some n')
          × (((n' ≡ unreachable n) × IsLost broken n) ⊎ ((n' ≡ n) × ¬ IsLost broken n)))
update_broken_paths_exact_example = update_broken_paths_exact 4 broken (omega arith) (omega arith)

entry-apply_pair_example :
    entry 30 (apply_pair 20 110 (record { mip_target = 30; distance = 2 }) table).0 ≡ (
      if 30 == 30
      then some (merged 20 110 (record { mip_target = 30; distance = 2 }) (entry 30 table))
      else entry 30 table)
entry-apply_pair_example =
    entry-apply_pair 30 20 110 (record { mip_target = 30; distance = 2 }) table (omega arith)
      (ground arith)

update_routing_list_lem_example :
    (t' : RoutingList) × (change : Bool) × (update_routing_list update 110 table ≡ ret (t', change))
    × Updates 20 table t' change
update_routing_list_lem_example =
    update_routing_list_lem update 110 table table-Distinct (omega arith)

entry_50 : entry 50 table ≡ none
unfolding entry
entry_50 = refl

entry_40 : entry 40 table ≡ some forty
unfolding entry
entry_40 = refl

-- 20 announces the unknown 50 as lost.
abbrev lost_50 : UnixPacket
lost_50 = record { mip = 20; ttl = 1; msg = b'U' ∷ b'P' ∷ b'D' ∷ 1 ∷ 50 ∷ 255 ∷ [] }

announced-lost_50 : announced lost_50 ≡ record { mip_target = 50; distance = max_distance } ∷ []
unfolding pairs_of
announced-lost_50 = refl

entry_20 : entry 20 table ≡ some twenty
unfolding entry
entry_20 = refl

unreachable_becomes_route_example :
    (lookup 50 table ≡ 255)
    × (t' : RoutingList) × (update_routing_list lost_50 110 table ≡ ret (t', true))
    × (lookup 50 t' ≡ 20)
unreachable_becomes_route_example =
    unreachable_becomes_route lost_50 110 50 twenty table table-Distinct (omega arith)
      announced-lost_50 entry_50 entry_20 (omega arith) refl

lookup-update_keeps_hop_example : (lookup 40 after_quiet ≡ 20) ⊎ (lookup 40 after_quiet ≡ 255)
lookup-update_keeps_hop_example =
    lookup-update_keeps_hop quiet 110 40 forty table after_quiet true table-Distinct (omega arith)
      entry_40 update_routing_list-quiet

lookup_30 : lookup 30 after_quiet ≢ 255
unfolding lookup
lookup_30 = omega arith

lookup-update_reachable_hop_example :
    All (λ m. m.distance ≡ max_distance → m.mip ≢ lookup 30 after_quiet) after_quiet
lookup-update_reachable_hop_example =
    lookup-update_reachable_hop quiet 110 30 table after_quiet true table-Distinct (omega arith)
      update_routing_list-quiet lookup_30

update_for_lem_example :
    let packet = of_bytes (update_for twenty table) in
    (packet.mip ≡ 20)
    × (starts_with3 packet.msg b'U' b'P' b'D' ≡ true)
    × (get_or packet.msg 3 0 ≡ length (advert twenty table))
    × (announced packet ≡ advert twenty table)
update_for_lem_example = update_for_lem twenty table (omega arith)

identify_broken_path_lem_example :
    ((identify_broken_path 113 table).0 ≡ map (aged 113) table)
    × (lookup 40 (identify_broken_path 113 table).0
        ≡ (if is_silent 113 forty then 255 else lookup 40 table))
identify_broken_path_lem_example =
    identify_broken_path_lem 113 40 forty table table-Distinct entry_40

table-All : All (λ m. is_silent 110 m ≡ false) table
table-All = ground arith

-- The daemon starts, and hears a neighbour.
abbrev socket : Socket
socket = record { path = b's' ∷ []; fd = some 3; accepted = true }

main-Ends_example : Ends KeepsRouter (main socket 100 (hello_from_50 ∷ []))
main-Ends_example = main-Ends socket 100 (hello_from_50 ∷ [])

quiet_table : identify_broken_path 110 table ≡ (table, [])
quiet_table = identify_broken_path_quiet 110 table table-All
