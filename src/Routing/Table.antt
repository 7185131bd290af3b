-- ===== src/Routing/Table.antt =====
-- The routing table of routing_utils.c: the nodes of its linked list behind the empty head node,
-- with `add_to_linked_list`, `handle_hello` and `lookup`. Clock readings are in whole seconds.
pub mod Entry
pub mod Hello
use in_lib.Base.{
  ℕ, ◌+◌, ◌≡◌, Bool, true, false, not, ◌&&◌, List, [], ◌∷◌, ◌++◌, map, ◌==◌, if◌then◌else◌,
}

-- `MAX_DISTANCE`: the distance of what cannot be reached.
abbrev pub max_distance : ℕ
max_distance = 255

-- `struct node`, without `next`; of `last_rcv` only `tv_sec` is ever read.
pub record Node : Type 0 where
  pub mip : ℕ
  pub distance : ℕ
  pub next_mip : ℕ
  pub last_rcv : ℕ

abbrev pub RoutingList : Type 0
RoutingList = List Node

-- The new node goes to the end; `now` is the clock that `gettimeofday` reads.
unfoldable pub add_to_linked_list : ℕ → ℕ → ℕ → ℕ → RoutingList → RoutingList
add_to_linked_list distance mip next_mip now routing_list =
    routing_list
    ++ (record { mip = mip; distance = distance; next_mip = next_mip; last_rcv = now } ∷ [])

-- The `while` of `handle_hello`: the list with the first node of that address refreshed, and the
-- value returned (true for 1); `found` is false where the loop falls through.
pub record Heard : Type 0 where
  pub list : RoutingList
  pub found : Bool
  pub changed : Bool

unfoldable pub hear : ℕ → ℕ → RoutingList → Heard
hear mip now [] = record { list = []; found = false; changed = false }
hear mip now (i ∷ rest) =
    let later = hear mip now rest in
    if i.mip == mip
    then record {
      list = record i { distance = 1; last_rcv = now } ∷ rest;
      found = true;
      changed = not (i.distance == 1);
    }
    else record { list = i ∷ later.list; found = later.found; changed = later.changed }

-- The new table, and whether a change was made.
unfoldable pub handle_hello : ℕ → ℕ → RoutingList → RoutingList × Bool
unfolding hear add_to_linked_list
handle_hello mip now routing_list =
    let heard = hear mip now routing_list in
    if heard.found
    then (heard.list, heard.changed)
    else (add_to_linked_list 1 mip mip now routing_list, true)

-- The next hop for a target, 255 where there is none.
unfoldable pub lookup : ℕ → RoutingList → ℕ
lookup mip_target [] = 255
lookup mip_target (n ∷ rest) =
    let later = lookup mip_target rest in
    if (n.mip == mip_target) && not (n.distance == max_distance) then n.next_mip else later

-- The addresses of a table, and its routes without their distances.
abbrev pub mips : RoutingList → List ℕ
mips = map (λ n. n.mip)

abbrev pub routes : RoutingList → List (ℕ × ℕ)
routes = map (λ n. (n.mip, n.next_mip))
