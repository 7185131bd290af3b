-- ===== src/Routing/Daemon.antt =====
-- The messages, the expiry of neighbours and the main loop of routing_daemon.c and
-- routing_utils.c. A write is the list of its bytes; a call of `read` returns an option, `none`
-- for -1.
pub mod Expiry
pub mod Invariant
use in_lib.Base.{
  ℕ, suc, ◌+◌, ◌≡◌, Bool, true, false, ◌&&◌, List, [], ◌∷◌, ◌++◌, ltb, ◌==◌, if◌then◌else◌, Option,
  none, some, get_or, Byte, bufsize, first_bytes, align4, overlay, starts_with3, Run, ret, overrun,
  no_fuel, ◌>>=◌,
}
use in_lib.Packet.{UnixPacket, to_bytes, of_bytes}
use in_lib.Routing.Table.{Node, RoutingList, max_distance, handle_hello, lookup}
use in_lib.Routing.Update.{update_routing_list}
use in_lib.Routing.Advertise.{send_update}

abbrev pub Writes : Type 0
Writes = List (List Byte)

unfoldable pub write_identifying_msg : List Byte
write_identifying_msg = first_bytes 4 (0x04 ∷ [])

-- `strlen(msg)` is 3.
unfoldable pub write_hello : List Byte
write_hello =
    first_bytes (align4 (3 + 2))
      (to_bytes (record { mip = 255; ttl = 1; msg = b'H' ∷ b'L' ∷ b'O' ∷ [] }))

-- The packet that answers a request.
unfoldable pub response : UnixPacket → RoutingList → List Byte
response packet routing_list = first_bytes 8 (
    to_bytes (record {
      mip = packet.mip;
      ttl = 0;
      msg = b'R' ∷ b'E' ∷ b'S' ∷ lookup (get_or packet.msg 3 0) routing_list ∷ [];
    }))

-- `identify_broken_path`: `before` holds the nodes that the loop has passed. An update goes out,
-- over the table as it then stands, for each neighbour that has been silent too long.
unfoldable pub expire_from : ℕ → RoutingList → RoutingList → RoutingList × Writes
expire_from now before [] = (before, [])
expire_from now before (n ∷ rest) =
    let silent = (n.distance == 1) && ltb (n.last_rcv + 12) now in
    let n' = if silent then record n { distance = max_distance } else n in
    let (list, out) = expire_from now (before ++ (n' ∷ [])) rest in
    (list, (if silent then send_update (before ++ (n' ∷ rest)) else []) ++ out)

unfoldable pub identify_broken_path : ℕ → RoutingList → RoutingList × Writes
unfolding expire_from
identify_broken_path now routing_list = expire_from now [] routing_list

-- What `main` keeps: the table, the buffer (never cleared), `done`, the time of the last hello.
pub record Router : Type 0 where
  pub table : RoutingList
  pub buffer : List Byte
  pub done : Bool
  pub time_sent_hlo : ℕ

-- The three kinds of packet; what is none of them changes nothing.
unfoldable pub receive : UnixPacket → ℕ → RoutingList → Run (RoutingList × Writes)
receive packet now table =
    if starts_with3 packet.msg b'H' b'L' b'O'
    then (let (table', changed) = handle_hello packet.mip now table in
        ret (table', if changed then send_update table' else []))
    else if starts_with3 packet.msg b'U' b'P' b'D'
    then (update_routing_list packet now table >>= λ r.
        ret (r.0, if r.1 then send_update r.0 else []))
    else if starts_with3 packet.msg b'R' b'E' b'Q'
    then ret (table, response packet table ∷ [])
    else ret (table, [])

-- `read_from_socket`, with what `read` returned.
unfoldable pub read_from_socket : Option (List Byte) → ℕ → Router → Run (Router × Writes)
unfolding receive
read_from_socket none now r = ret (record r { done = true }, [])
read_from_socket (some []) now r = ret (record r { done = true }, [])
read_from_socket (some (b ∷ bytes)) now r =
    let buffer = overlay (b ∷ bytes) r.buffer in
    receive (of_bytes buffer) now r.table >>= λ out.
    ret (record r { table = out.0; buffer = buffer }, out.1)

-- One round of the main loop: the clock as it is read in turn (at the top, after the hello, in
-- `identify_broken_path`, in the handlers), `revents`, and what `read` returns.
pub record Wake : Type 0 where
  pub current_time : ℕ
  pub hello_time : ℕ
  pub check_time : ℕ
  pub receive_time : ℕ
  pub pollhup : Bool
  pub pollin : Bool
  pub input : Option (List Byte)

-- The hello and the full update that are due more than five seconds after the last ones.
unfoldable pub greet : Wake → Router → Router × Writes
unfolding write_hello
greet w r =
    if ltb (r.time_sent_hlo + 5) w.current_time
    then (record r { time_sent_hlo = w.hello_time }, write_hello ∷ send_update r.table)
    else (r, [])

unfoldable pub poll_socket : Wake → Router → Run (Router × Writes)
poll_socket w r =
    if w.pollhup
    then ret (record r { done = true }, [])
    else if w.pollin
    then read_from_socket w.input w.receive_time r
    else ret (r, [])

unfoldable pub round : Wake → Router → Run (Router × Writes)
unfolding greet identify_broken_path poll_socket
round w r =
    let (greeted, hellos) = greet w r in
    let (table, expired) = identify_broken_path w.check_time greeted.table in
    poll_socket w (record greeted { table = table }) >>= λ out.
    ret (out.0, hellos ++ (expired ++ out.1))

-- `while (!done)`, over the rounds that the environment offers.
unfoldable pub run : List Wake → Router → Run (Router × Writes)
unfolding round
run [] r = ret (r, [])
run (w ∷ ws) r = elim r.done [
  | true ↦ ret (r, [])
  | false ↦ round w r >>= λ a. run ws a.0 >>= λ b. ret (b.0, a.1 ++ b.1)
]

-- `main` before its loop: the empty table, and the two messages sent. `gettimeofday` follows.
unfoldable pub start : ℕ → Router × Writes
unfolding write_hello write_identifying_msg
start now = (
  record { table = []; buffer = []; done = false; time_sent_hlo = now },
  write_identifying_msg ∷ write_hello ∷ [],
)
