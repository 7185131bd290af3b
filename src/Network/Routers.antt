-- ===== src/Network/Routers.antt =====
-- The routing daemons of many hosts: the handlers of routing_utils.c, called in any order. An
-- update that was sent stays in the network and may arrive any number of times, or never.
pub mod Distances
pub mod Way
pub mod Learning
mod Tests
use in_lib.Base.{
  ℕ, ◌<◌, ◌≤◌, ◌≢◌, length, get_or, Byte, ◌+◌, ◌≡◌, Bool, List, [], ◌∷◌, ◌++◌, map, some, ◌==◌,
  if◌then◌else◌, get_elem?, take, drop, All, ret,
}
use in_lib.Packet.{UnixPacket, of_bytes}
use in_lib.Routing.Table.{Node, RoutingList, handle_hello}
use in_lib.Routing.Update.{announced, update_routing_list}
use in_lib.Routing.Update.Distances.{IsKnown}
use in_lib.Routing.Advertise.{update_for}
use in_lib.Routing.Daemon.{expire_from}
use in_lib.Mip.Link.{IfAddr, write}
use in_lib.Mip.Forward.{Mip, update_frame}
use in_lib.Mip.Daemon.{PollFd, zero_fd, dispatch_raw}
use in_lib.Mip.Daemon.Clients.{arrives}

-- The MIP daemon of a neighbour: its state, sockets, interfaces and memory, and how a frame comes in.
pub record Below : Type 0 where
  pub mip : Mip
  pub fds : List PollFd
  pub ifaces : List IfAddr
  pub stack : List Byte
  pub iface : ℕ
  pub mac : List Byte

-- An update on its way, as the neighbour's daemon reads it.
pub record Sent : Type 0 where
  pub sender : ℕ
  pub target : ℕ
  pub packet : UnixPacket

pub record Routers : Type 0 where
  pub tables : ℕ → RoutingList
  pub sent : List Sent

abbrev pub with_table : Routers → ℕ → RoutingList → Routers
with_table r host t = record r { tables = λ k. if host == k then t else r.tables k }

pub data Step (Linked : ℕ → ℕ → Type 0) (r : Routers) : Routers → Type 0 where
  -- The hello of a neighbour.
  hello :
      (host neighbour now : ℕ)
      → Linked host neighbour
      → Step Linked r (with_table r host (handle_hello neighbour now (r.tables host)).0)
  -- One of the updates of `send_update`, to the node at index `i` of the table, of at most 29 pairs:
  -- the frame of the host's MIP daemon, and what the neighbour's MIP daemon writes for it to its
  -- routing daemon, which is connected.
  advertise :
      (host i : ℕ) (to : Node) (below : Below) (up : List Byte)
      → get_elem? (r.tables host) i ≡ some to
      → to.distance ≡ 1
      → host < 256
      → length (r.tables host) ≤ 123
      → get_or (of_bytes (update_for to (r.tables host))).msg 3 0 ≤ 29
      → (get_or below.fds 3 zero_fd).fd ≢ 0
      → dispatch_raw
          (arrives
            (update_frame (of_bytes (update_for to (r.tables host))) host)
            below.iface
            below.mac)
          to.mip
          below.ifaces
          below.stack
          below.fds
          below.mip
        ≡ ret (below.mip, write (get_or below.fds 3 zero_fd).fd up ∷ [])
      → Step Linked r (record r {
        sent = record { sender = host; target = to.mip; packet = of_bytes up } ∷ r.sent;
      })
  -- An update arrives. It calls no address unreachable that the host does not know.
  update :
      (i now : ℕ) (s : Sent) (t : RoutingList) (change : Bool)
      → get_elem? r.sent i ≡ some s
      → All (IsKnown (r.tables s.target)) (announced s.packet)
      → update_routing_list s.packet now (r.tables s.target) ≡ ret (t, change)
      → Step Linked r (with_table r s.target t)
  -- `identify_broken_path` has passed `k` nodes; after each it may send updates.
  expire :
      (host now k : ℕ)
      → Step Linked r (
          with_table r host
            ((expire_from now [] (take k (r.tables host))).0 ++ drop k (r.tables host)))

abbrev pub empty : Routers
empty = record { tables = λ _. []; sent = [] }

pub data Reach (Linked : ℕ → ℕ → Type 0) : Routers → Type 0 where
  started : Reach Linked empty
  later : {r s : Routers} → Reach Linked r → Step Linked r s → Reach Linked s

-- A way over links, and its length.
pub data Walk (Linked : ℕ → ℕ → Type 0) : ℕ → ℕ → ℕ → Type 0 where
  one : {a b n : ℕ} → Linked a b → n ≡ 1 → Walk Linked a b n
  over : {a b c m n : ℕ} → Linked a b → Walk Linked b c m → n ≡ m + 1 → Walk Linked a c n
