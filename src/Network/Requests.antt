-- ===== src/Network/Requests.antt =====
-- A request for a route, from the MIP daemon to its routing daemon and back.
use in_lib.Base.{ℕ, ◌≡◌, refl, List, [], ◌∷◌, some, Byte, overlay, ret}
use in_lib.Routing.Table.{lookup}
use in_lib.Routing.Daemon.{Router, read_from_socket, response}
use in_lib.Mip.Link.{IfAddr, write}
use in_lib.Mip.Forward.{Mip, send_req_to_router, forward_response, handle_routing_msg}

-- The request for a target is answered by one packet, and leaves the routing table as it is. The
-- MIP daemon takes the answer for a response with the next hop that the table has for the target.
pub request_answered :
    (mip_from mip_to fd now my_mip : ℕ) (r : Router) (ifaces : List IfAddr) (m : Mip)
    → (request reply : List Byte) × (send_req_to_router mip_from mip_to fd ≡ write fd request)
      × (read_from_socket (some request) now r
          ≡ ret (record r { buffer = overlay request r.buffer }, reply ∷ []))
      × (handle_routing_msg (some reply) my_mip ifaces m
          ≡ forward_response (lookup mip_to r.table) my_mip ifaces m)
unfolding send_req_to_router read_from_socket response handle_routing_msg
request_answered mip_from mip_to fd now my_mip r ifaces m = (
  mip_from ∷ 0 ∷ b'R' ∷ b'E' ∷ b'Q' ∷ mip_to ∷ 0 ∷ 0 ∷ [],
  mip_from ∷ 0 ∷ b'R' ∷ b'E' ∷ b'S' ∷ lookup mip_to r.table ∷ 0 ∷ 0 ∷ [],
  refl,
  refl,
  refl,
)
