-- ===== src/Network/Routers/Distances.antt =====
-- Every finite distance of a routing table is the length of a way to its target.
use in_lib.Base.{
  ℕ, List, Byte, length, get_or, ret, ◌≤◌, ◌<◌, ◌≡◌, refl, sym, subst, ◌≢◌, inl, inr, [], ◌∷◌, ◌++◌,
  map, some, ◌==◌, eq_of_==, Bool-cases, take, drop, All, All-append, All-map, All-mono, All-take,
  All-drop, All-get_elem?, Gives-ret, arith,
}
use in_lib.Routing.Table.{Node, RoutingList, max_distance, handle_hello, hear, add_to_linked_list}
use in_lib.Routing.Table.Entry.{entry}
use in_lib.Routing.Update.{announced}
use in_lib.Routing.Update.Distances.{IsFine, IsFinePair, update_routing_list-IsFine}
use in_lib.Routing.Advertise.{update_for}
use in_lib.Routing.Advertise.Decode.{advert, update_for_lem}
use in_lib.Routing.Daemon.{expire_from}
use in_lib.Packet.{of_bytes}
use in_lib.Mip.Link.{write}
use in_lib.Mip.Forward.{update_frame}
use in_lib.Mip.Daemon.{zero_fd, dispatch_raw}
use in_lib.Mip.Daemon.Clients.{arrives}
use in_lib.Network.Updates.{update_reaches_neighbour}
use in_lib.Routing.Daemon.Expiry.{aged, is_silent, expire_from-map}
use in_lib.Network.Routers.{
  Below, Sent, Routers, with_table, Step, hello, advertise, update, expire, Reach, started, later,
  Walk, one, over,
}

All-entry :
    (P : Node → Type 0) (j : ℕ) (n : Node) (t : RoutingList)
    → All P t
    → entry j t ≡ some n
    → P n × (n.mip ≡ j)
unfolding entry
All-entry P j n [] h e = absurd (cc)
All-entry P j n (m ∷ rest) h e = elim (Bool-cases (m.mip == j)) [
  | inl hit ↦
      let same : m ≡ n = ground arith in
      (subst P same h.0, subst (λ k. k.mip ≡ j) same (eq_of_== _ _ hit))
  | inr miss ↦ All-entry P j n rest h.1 (ground arith)
]

-- What the neighbour reads of an update.
announced_up :
    (host : ℕ) (to : Node) (t : RoutingList) (below : Below) (up : List Byte)
    → host < 256
    → length t ≤ 123
    → get_or (of_bytes (update_for to t)).msg 3 0 ≤ 29
    → (get_or below.fds 3 zero_fd).fd ≢ 0
    → dispatch_raw
        (arrives (update_frame (of_bytes (update_for to t)) host) below.iface below.mac)
        to.mip
        below.ifaces
        below.stack
        below.fds
        below.mip
      ≡ ret (below.mip, write (get_or below.fds 3 zero_fd).fd up ∷ [])
    → announced (of_bytes up) ≡ advert to t
announced_up host to t below up small short few connected e =
    let (_, _, count, _) = update_for_lem to t short in
    let (up', e', _, _, pairs) =
      update_reaches_neighbour to t host to.mip below.iface (get_or below.fds 3 zero_fd).fd
        below.mac below.stack below.ifaces below.fds below.mip short (omega (arith, count)) small
        refl connected in
    let same : up' ≡ up = cc in subst (λ b. announced (of_bytes b) ≡ advert to t) same pairs

module _ (Linked : ℕ → ℕ → Type 0) (back : (a b : ℕ) → Linked a b → Linked b a) where
  Walk-pos : {a b n : ℕ} → Walk Linked a b n → 0 < n
  Walk-pos (one l e) = omega (arith, e)
  Walk-pos (over l w e) = omega (arith, e)

  -- A way of length 1 is a link.
  Linked_of_one : {a b n : ℕ} → Walk Linked a b n → n ≡ 1 → Linked a b
  Linked_of_one (one l e) h = l
  Linked_of_one (over l w e) h = absurd (omega (arith, e, Walk-pos w))

  abbrev FineTable : ℕ → RoutingList → Type 0
  FineTable host t = All (IsFine (Walk Linked host)) t

  abbrev FineSent : Sent → Type 0
  FineSent s = All (IsFinePair (Walk Linked s.target)) (announced s.packet)

  record Inv (r : Routers) : Type 0 where
    tables : (host : ℕ) → FineTable host (r.tables host)
    sent : All FineSent r.sent

  near-IsFine :
      (host mip : ℕ) (n : Node)
      → Linked host mip
      → n.mip ≡ mip
      → n.distance ≡ 1
      → IsFine (Walk Linked host) n
  near-IsFine host mip n link m d = (omega arith, inr (one (subst (Linked host) (sym m) link) d))

  hear-FineTable :
      (host mip now : ℕ) (t : RoutingList)
      → Linked host mip
      → FineTable host t
      → FineTable host (hear mip now t).list
  unfolding hear
  hear-FineTable host mip now [] link h = tt
  hear-FineTable host mip now (n ∷ rest) link h = elim (Bool-cases (n.mip == mip)) [
    | inl hit ↦ rw hit (
      near-IsFine host mip (record n { distance = 1; last_rcv = now }) link (eq_of_== _ _ hit) refl,
      h.1,
    )
    | inr miss ↦ rw miss (h.0, hear-FineTable host mip now rest link h.1)
  ]

  handle_hello-FineTable :
      (host mip now : ℕ) (t : RoutingList)
      → Linked host mip
      → FineTable host t
      → FineTable host (handle_hello mip now t).0
  unfolding handle_hello add_to_linked_list
  handle_hello-FineTable host mip now t link h = elim (Bool-cases (hear mip now t).found) [
    | inl known ↦ rw (handle_hello, known) (hear-FineTable host mip now t link h)
    | inr new ↦
        rw (handle_hello, new)
          (All-append _ t _ h (
            near-IsFine host mip
                (record { mip = mip; distance = 1; next_mip = mip; last_rcv = now }) link refl refl,
            tt,
          ))
  ]

  -- What is advertised is right for a neighbour.
  advert-FinePairs :
      (host target : ℕ) (to : Node) (t : RoutingList)
      → Linked target host
      → FineTable host t
      → All (IsFinePair (Walk Linked target)) (advert to t)
  advert-FinePairs host target to [] link h = tt
  advert-FinePairs host target to (n ∷ rest) link h =
      let later = advert-FinePairs host target to rest link h.1 in
      elim (Bool-cases (n.mip == to.mip)) [
        | inl own ↦ rw own later
        | inr other ↦ elim (Bool-cases (n.next_mip == to.mip)) [
          | inl through ↦ rw (other, through) ((omega arith, inl refl), later)
          | inr direct ↦
              rw (other, direct)
                (
                  (
                    h.0.0,
                    elim h.0.1 [ inl lost ↦ inl lost | inr walk ↦ inr (over link walk refl) ],
                  ),
                  later,
                )
        ]
      ]

  aged-IsFine :
      (host now : ℕ) (n : Node)
      → IsFine (Walk Linked host) n
      → IsFine (Walk Linked host) (aged now n)
  aged-IsFine host now n h = elim (Bool-cases (is_silent now n)) [
    | inl silent ↦ rw silent (omega arith, inl refl)
    | inr heard ↦ rw heard h
  ]

  with_table-Fine :
      (r : Routers) (host : ℕ) (t : RoutingList)
      → ((h : ℕ) → FineTable h (r.tables h))
      → FineTable host t
      → (h : ℕ) → FineTable h ((with_table r host t).tables h)
  with_table-Fine r host t all new h = elim (Bool-cases (host == h)) [
    | inl same ↦ rw same (subst (λ k. FineTable k t) (eq_of_== _ _ same) new)
    | inr other ↦ rw other (all h)
  ]

  Step-Inv : {r s : Routers} → Step Linked r s → Inv r → Inv s
  Step-Inv {r} (hello host neighbour now link) inv = record {
    tables =
        with_table-Fine r host (handle_hello neighbour now (r.tables host)).0 inv.tables
          (handle_hello-FineTable host neighbour now (r.tables host) link (inv.tables host));
    sent = inv.sent;
  }
  Step-Inv {r} (advertise host i to below up at near small short few connected sent_up) inv =
      let fine = All-get_elem? _ (r.tables host) i to (inv.tables host) at in
      let pairs = announced_up host to (r.tables host) below up small short few connected sent_up in
      let link : Linked to.mip host = elim fine.1 [
        | inl lost ↦ absurd (omega (arith, near))
        | inr walk ↦ back host to.mip (Linked_of_one walk near)
      ] in
      record {
        tables = inv.tables;
        sent = (
          subst (All (IsFinePair (Walk Linked to.mip))) (sym pairs)
              (advert-FinePairs host to.mip to (r.tables host) link (inv.tables host)),
          inv.sent,
        );
      }
  Step-Inv {r} (update i now s t change at known e) inv = record {
    tables = with_table-Fine r s.target t inv.tables (
        Gives-ret _ _ (t, change)
          (update_routing_list-IsFine (Walk Linked s.target) s.packet now (r.tables s.target)
            (All-get_elem? FineSent r.sent i s inv.sent at) known (inv.tables s.target))
          e);
    sent = inv.sent;
  }
  Step-Inv {r} (expire host now k) inv =
      let old = r.tables host in
      record {
        tables =
            with_table-Fine r host ((expire_from now [] (take k old)).0 ++ drop k old) inv.tables (
              rw (expire_from-map now [] (take k old)) (
                All-append _ (map (aged now) (take k old)) (drop k old)
                  (All-map _ (aged now) (take k old) (
                    All-mono _ _ (take k old) (aged-IsFine host now)
                      (All-take _ k old (inv.tables host))))
                  (All-drop _ k old (inv.tables host))));
        sent = inv.sent;
      }

  Reach-Inv : {r : Routers} → Reach Linked r → Inv r
  Reach-Inv started = record { tables = λ h. tt; sent = tt }
  Reach-Inv (later r step) = Step-Inv step (Reach-Inv r)

  -- Hosts whose links go both ways start with empty tables, and hear hellos, send updates of at most
  -- 29 pairs out of tables of at most 123 nodes, receive them (late, repeatedly or never) and lose
  -- silent neighbours, in any order. As long as no update that arrives calls an address
  -- unreachable which its receiver does not know, every entry
  -- of every table with a distance other than `MAX_DISTANCE` has the length of a way over links
  -- from the host to the entry's address.
  pub distance_is_Walk :
      (r : Routers) (host j : ℕ) (n : Node)
      → Reach Linked r
      → entry j (r.tables host) ≡ some n
      → n.distance ≢ max_distance
      → Walk Linked host j n.distance
  distance_is_Walk r host j n reach e finite =
      let (fine, same) = All-entry _ j n (r.tables host) ((Reach-Inv reach).tables host) e in
      elim fine.1 [
        | inl lost ↦ absurd (finite lost)
        | inr walk ↦ subst (λ k. Walk Linked host k n.distance) same walk
      ]
