-- ===== src/Routing/Update.antt =====
-- `update_routing_list` of routing_utils.c: an update from a neighbour is merged into the table.
pub mod Merge
pub mod Sound
pub mod Hops
pub mod Distances
use in_lib.Base.{
  ℕ, zero, suc, ◌+◌, ◌%◌, ◌≡◌, Bool, true, false, ◌&&◌, ◌||◌, List, [], ◌∷◌, ltb, ◌==◌,
  if◌then◌else◌, length, get_or, drop, Byte, Run, ret, overrun, no_fuel, ◌>>=◌,
}
use in_lib.Packet.{UnixPacket}
use in_lib.Routing.Table.{Node, RoutingList, max_distance, add_to_linked_list}
use in_lib.Routing.Broken.{update_broken_paths}

-- `struct update_pair`.
pub record UpdatePair : Type 0 where
  pub mip_target : ℕ
  pub distance : ℕ

-- `pairs[0]` up to `pairs[num_pairs - 1]`, two bytes each.
unfoldable pub pairs_of : ℕ → List Byte → List UpdatePair
pairs_of zero bytes = []
pairs_of (suc count) bytes =
    record { mip_target = get_or bytes 0 0; distance = get_or bytes 1 0 }
    ∷ pairs_of count (drop 2 bytes)

-- The body of the inner `while` at a node of the pair's address, with `change`. The sum
-- `current_pair.distance + 1` is an `int` in the test, and loses its high bits in the node.
unfoldable pub improve : ℕ → UpdatePair → Node → Node × Bool
improve sender pair n =
    if (pair.distance == max_distance) && (sender == n.next_mip)
    then (record n { distance = max_distance }, true)
    else if ltb (pair.distance + 1) n.distance
    then (record n { distance = (pair.distance + 1) % 256 }, true)
    else (n, false)

-- The inner `while`: the table, `known_address` and `change`.
pub record Scan : Type 0 where
  pub list : RoutingList
  pub known : Bool
  pub change : Bool

unfoldable pub scan : ℕ → UpdatePair → RoutingList → Scan
unfolding improve
scan sender pair [] = record { list = []; known = false; change = false }
scan sender pair (n ∷ rest) =
    let later = scan sender pair rest in
    let improved = improve sender pair n in
    if n.mip == pair.mip_target
    then record {
      list = improved.0 ∷ later.list;
      known = true;
      change = improved.1 || later.change;
    }
    else record { list = n ∷ later.list; known = later.known; change = later.change }

-- The body of the outer `while`. `add_to_linked_list` takes a `uint8_t` distance.
unfoldable pub apply_pair : ℕ → ℕ → UpdatePair → RoutingList → RoutingList × Bool
unfolding scan
apply_pair sender now pair routing_list =
    let s = scan sender pair routing_list in
    if s.known
    then (s.list, s.change)
    else (add_to_linked_list ((pair.distance + 1) % 256) pair.mip_target sender now s.list, true)

unfoldable pub apply_pairs : ℕ → ℕ → List UpdatePair → RoutingList → RoutingList × Bool
apply_pairs sender now [] routing_list = (routing_list, false)
apply_pairs sender now (pair ∷ more) routing_list =
    let (list', change) = apply_pair sender now pair routing_list in
    let (list'', change') = apply_pairs sender now more list' in (list'', change || change')

-- The pairs that a packet announces: `msg[3]` of them, from `msg[4]` on.
abbrev pub announced : UnixPacket → List UpdatePair
announced packet = pairs_of (get_or packet.msg 3 0) (drop 4 packet.msg)

-- The repair of broken paths gets one round of fuel for each node, and one more.
unfoldable pub update_routing_list : UnixPacket → ℕ → RoutingList → Run (RoutingList × Bool)
update_routing_list packet now routing_list =
    let merged = apply_pairs packet.mip now (announced packet) routing_list in
    update_broken_paths (suc (length merged.0)) merged.0 >>= λ r. ret (r.0, merged.1 || r.1)
