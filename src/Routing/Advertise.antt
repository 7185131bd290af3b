-- ===== src/Routing/Advertise.antt =====
-- `send_update` of routing_utils.c: the table as the update packets for the neighbours.
pub mod Decode
use in_lib.Base.{
  ℕ, zero, suc, ◌+◌, ◌*◌, ◌%◌, ◌≡◌, Bool, true, false, List, [], ◌∷◌, ◌++◌, ◌==◌, if◌then◌else◌,
  Byte, first_bytes, align4,
}
use in_lib.Packet.{UnixPacket, to_bytes}
use in_lib.Routing.Table.{Node, RoutingList, max_distance}
use in_lib.Routing.Update.{UpdatePair}

-- `pair_list[index] = pair`.
unfoldable pub store : List UpdatePair → ℕ → UpdatePair → List UpdatePair
store [] index pair = pair ∷ []
store (p ∷ pairs) zero pair = pair ∷ pairs
store (p ∷ pairs) (suc index) pair = p ∷ store pairs index pair

-- The distance announced to `to`: `MAX_DISTANCE` where `to` is the next hop itself.
unfoldable pub announced_distance : Node → Node → ℕ
announced_distance to n = if n.next_mip == to.mip then max_distance else n.distance

-- The inner `while`: `pair_list` and the 8-bit `index`.
unfoldable pub fill_pairs : Node → RoutingList → List UpdatePair → ℕ → List UpdatePair × ℕ
unfolding announced_distance
fill_pairs to [] pair_list index = (pair_list, index)
fill_pairs to (n ∷ rest) pair_list index = elim (n.mip == to.mip) [
  | true ↦ fill_pairs to rest pair_list index
  | false ↦
      fill_pairs to rest
        (store pair_list index (record { mip_target = n.mip; distance = announced_distance to n }))
        ((index + 1) % 256)
]

unfoldable pub pair_bytes : List UpdatePair → List Byte
pair_bytes [] = []
pair_bytes (p ∷ pairs) = p.mip_target ∷ p.distance ∷ pair_bytes pairs

-- `update_buffer`: "UPD", the number of pairs, the pairs.
unfoldable pub update_buffer : List UpdatePair → ℕ → List Byte
unfolding pair_bytes
update_buffer pair_list index = b'U' ∷ b'P' ∷ b'D' ∷ index ∷ pair_bytes pair_list

-- The bytes written for one neighbour; both sizes are `uint8_t`.
unfoldable pub update_for : Node → RoutingList → List Byte
unfolding fill_pairs update_buffer
update_for to routing_list =
    let (pair_list, index) = fill_pairs to routing_list [] 0 in
    let message_size = (4 + index * 2) % 256 in
    let total_size = align4 ((2 + message_size) % 256) % 256 in
    first_bytes total_size (
      to_bytes (record {
        mip = to.mip;
        ttl = 1;
        msg = first_bytes message_size (update_buffer pair_list index);
      }))

-- The outer `while`: one packet for each node at distance 1, in the table's order.
unfoldable pub updates_from : RoutingList → RoutingList → List (List Byte)
unfolding update_for
updates_from routing_list [] = []
updates_from routing_list (to ∷ rest) =
    let later = updates_from routing_list rest in
    if to.distance == 1 then update_for to routing_list ∷ later else later

unfoldable pub send_update : RoutingList → List (List Byte)
unfolding updates_from
send_update routing_list = updates_from routing_list routing_list
