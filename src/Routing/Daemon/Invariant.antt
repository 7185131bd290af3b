-- ===== src/Routing/Daemon/Invariant.antt =====
-- What holds of the routing daemon over all rounds of its main loop.
use in_lib.Base.{
  ℕ, suc, ◌≡◌, sym, subst, inl, inr, Bool, List, [], ◌∷◌, Option, none, some, Bool-cases, length,
  Distinct, Byte, overlay, starts_with3, Ends, Ends->>=, arith,
}
use in_lib.Packet.{UnixPacket, of_bytes}
use in_lib.Routing.Table.{RoutingList, mips}
use in_lib.Routing.Table.Hello.{handle_hello-Distinct}
use in_lib.Routing.Broken.Settled.{kept, reachable-le-length, update_broken_paths-Ends}
use in_lib.Routing.Update.{announced, apply_pairs, update_routing_list}
use in_lib.Routing.Update.Sound.{apply_pairs-Distinct, mips_of_kept}
use in_lib.Routing.Daemon.{
  Router, Wake, Writes, receive, read_from_socket, identify_broken_path, greet, poll_socket, round,
  run,
}
use in_lib.Routing.Daemon.Expiry.{mips-identify_broken_path}

update_routing_list-Ends :
    (packet : UnixPacket) (now : ℕ) (t : RoutingList)
    → Distinct (mips t)
    → Ends (λ r. Distinct (mips r.0)) (update_routing_list packet now t)
unfolding update_routing_list
update_routing_list-Ends packet now t d =
    let m = (apply_pairs packet.mip now (announced packet) t).0 in
    Ends->>= (λ r. kept r.0 ≡ kept m) (λ r. Distinct (mips r.0)) _ _
      (update_broken_paths-Ends (suc (length m)) m (omega (arith, reachable-le-length m)))
      λ r e.
        subst Distinct (mips_of_kept m r.0 (sym e))
          (apply_pairs-Distinct packet.mip now (announced packet) t d)

abbrev KeepsTable : RoutingList × Writes → Type 0
KeepsTable a = Distinct (mips a.0)

receive-Ends :
    (packet : UnixPacket) (now : ℕ) (t : RoutingList)
    → Distinct (mips t)
    → Ends KeepsTable (receive packet now t)
unfolding receive
receive-Ends packet now t d = elim (Bool-cases (starts_with3 packet.msg b'H' b'L' b'O')) [
  | inl hello ↦ rw (hello, receive) (handle_hello-Distinct packet.mip now t d)
  | inr other ↦ elim (Bool-cases (starts_with3 packet.msg b'U' b'P' b'D')) [
    | inl update ↦
        rw (other, update, receive)
          (Ends->>= {A = RoutingList × Bool} (λ r. Distinct (mips r.0)) KeepsTable _ _
            (update_routing_list-Ends packet now t d) (λ r h. h))
    | inr rest ↦ elim (Bool-cases (starts_with3 packet.msg b'R' b'E' b'Q')) [
      | inl request ↦ rw (other, rest, request, receive) d
      | inr unknown ↦ rw (other, rest, unknown, receive) d
    ]
  ]
]

abbrev pub IsRouter : Router → Type 0
IsRouter r = Distinct (mips r.table)

abbrev pub KeepsRouter : Router × Writes → Type 0
KeepsRouter a = IsRouter a.0

read_from_socket-Ends :
    (input : Option (List Byte)) (now : ℕ) (r : Router)
    → IsRouter r
    → Ends KeepsRouter (read_from_socket input now r)
unfolding read_from_socket
read_from_socket-Ends none now r d = d
read_from_socket-Ends (some []) now r d = d
read_from_socket-Ends (some (b ∷ bytes)) now r d =
    Ends->>= KeepsTable KeepsRouter _ _
      (receive-Ends (of_bytes (overlay (b ∷ bytes) r.buffer)) now r.table d) (λ a h. h)

poll_socket-Ends : (w : Wake) (r : Router) → IsRouter r → Ends KeepsRouter (poll_socket w r)
unfolding poll_socket
poll_socket-Ends w r d = elim (Bool-cases w.pollhup) [
  | inl hup ↦ rw (hup, poll_socket) d
  | inr up ↦ elim (Bool-cases w.pollin) [
    | inl ready ↦ rw (up, ready, poll_socket) (read_from_socket-Ends w.input w.receive_time r d)
    | inr idle ↦ rw (up, idle, poll_socket) d
  ]
]

table-greet : (w : Wake) (r : Router) → (greet w r).0.table ≡ r.table
unfolding greet
table-greet w r = ground arith

round-Ends : (w : Wake) (r : Router) → IsRouter r → Ends KeepsRouter (round w r)
unfolding round
round-Ends w r d =
    Ends->>= KeepsRouter KeepsRouter _ _
      (poll_socket-Ends w
        (record (greet w r).0 { table = (identify_broken_path w.check_time (greet w r).0.table).0 })
        (rw (mips-identify_broken_path, table-greet w r) d))
      (λ a h. h)

-- From a table with one entry for each address, over any rounds, with any input and any clock, the
-- main loop ends: by returning with one entry for each address in the table, by `exit`, or by
-- leaving an array. The loops inside a round never run for ever.
pub run-Ends : (ws : List Wake) (r : Router) → IsRouter r → Ends KeepsRouter (run ws r)
unfolding run
run-Ends [] r d = d
run-Ends (w ∷ ws) r d = elim (Bool-cases r.done) [
  | inl done ↦ rw (done, run) d
  | inr more ↦
      rw (more, run)
        (Ends->>= KeepsRouter KeepsRouter _ _ (round-Ends w r d)
          λ a h. Ends->>= KeepsRouter KeepsRouter _ _ (run-Ends ws a.0 h) (λ b k. k))
]
