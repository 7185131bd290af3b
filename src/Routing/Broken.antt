-- ===== src/Routing/Broken.antt =====
-- `update_broken_paths` of routing_utils.c: a node whose next hop is unreachable is unreachable.
pub mod Settled
pub mod Exact
use in_lib.Base.{
  ℕ, zero, suc, ◌≡◌, Bool, true, false, not, ◌&&◌, ◌||◌, List, [], ◌∷◌, ltb, ◌==◌, if◌then◌else◌,
  length, Run, ret, overrun, no_fuel, ◌>>=◌,
}
use in_lib.Packet.{max_nodes}
use in_lib.Routing.Table.{Node, RoutingList, max_distance}

-- `update_list`: the addresses at `MAX_DISTANCE`, in the list's order.
unfoldable pub broken_mips : RoutingList → List ℕ
broken_mips [] = []
broken_mips (n ∷ rest) =
    let later = broken_mips rest in if n.distance == max_distance then n.mip ∷ later else later

-- The inner `while`, for one entry of `update_list`; true if some node was set.
unfoldable pub mark_via : ℕ → RoutingList → RoutingList × Bool
mark_via broken [] = ([], false)
mark_via broken (n ∷ rest) =
    let (rest', done) = mark_via broken rest in
    if not (n.distance == max_distance) && (broken == n.next_mip)
    then (record n { distance = max_distance } ∷ rest', true)
    else (n ∷ rest', done)

-- The `for` over `update_list`.
unfoldable pub mark_all : List ℕ → RoutingList → RoutingList × Bool
mark_all [] routing_list = (routing_list, false)
mark_all (broken ∷ more) routing_list =
    let (list', done) = mark_via broken routing_list in
    let (list'', done') = mark_all more list' in (list'', done || done')

-- The outer `while`, on fuel: the table and `change`. The array holds `max_nodes` addresses.
unfoldable pub update_broken_paths : ℕ → RoutingList → Run (RoutingList × Bool)
update_broken_paths zero routing_list = no_fuel
update_broken_paths (suc fuel) routing_list =
    let update_list = broken_mips routing_list in
    let marked = mark_all update_list routing_list in
    elim (ltb max_nodes (length update_list)) [
      | true ↦ overrun
      | false ↦ elim marked.1 [
        | true ↦ update_broken_paths fuel marked.0 >>= λ r. ret (r.0, true)
        | false ↦ ret (marked.0, false)
      ]
    ]
