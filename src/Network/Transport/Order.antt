-- ===== src/Network/Transport/Order.antt =====
-- What the receiver's application gets is in order, whatever the network does.
use in_lib.Base.{
  ℕ, ◌+◌, ◌<◌, ◌≡◌, refl, sym, ap, ◌∙◌, subst, inl, inr, ltb, ◌==◌, if◌then◌else◌, eq_of_==, List,
  [], ◌∷◌, ◌++◌, map, map-append, none, some, Bool-cases, length, length-append, get_elem?, Byte,
  All-get_elem?, ret, Ends, Ends-ret, arith,
}
use in_lib.Packet.{max_links}
use in_lib.Miptp.Host.{Host, SeqLink, seq_limit, next_seq}
use in_lib.Miptp.Send.Window.{node_for}
use in_lib.Miptp.Receive.{seq_exp, receive_data, advance}
use in_lib.Miptp.Receive.InOrder.{accept_known, next_seq-lt, seq_exp-advance}
use in_lib.Network.Messages.{carried, handed_over}
use in_lib.Network.Transport.{
  Transport, after_packet, Step, send, timeout, packet, ack, Reach, started, later, start,
}
use in_lib.Network.Transport.Packets.{reply, carried_ignored, carried_taken, carried_overrun}
use in_lib.Network.Transport.Links.{first_link, accept_first, accept_full, split_at, next_message}
use in_lib.Network.Transport.Invariant.{Carries, InOrder, Inv}
use in_lib.Network.Transport.Keeps.{send-Inv, timeout-Inv, ack-Inv, ignored-Inv, taken-Inv}

module _ (src base dst mip_daemon app_fd : ℕ) where
  -- A packet with the message of that index.
  node-Inv :
      (bytes stack : List Byte) (time k index : ℕ) (host : Host) (s : Transport)
      → get_elem? s.submitted index ≡ some bytes
      → length bytes ≡ 2 + k
      → host.seq_send ≡ base + index
      → base + index < seq_limit
      → Inv src base host.port s
      → let p = carried src (node_for bytes stack time host) in
        Ends
          (λ r. Inv src base host.port (after_packet dst s r))
          (receive_data mip_daemon app_fd p (length p) s.receiver)
  node-Inv bytes stack time k index host s nth long number below inv = by_view inv.view
    where
      small : host.seq_send < seq_limit
      small = omega (arith, number)

      p : List Byte
      p = carried src (node_for bytes stack time host)

      links : List SeqLink
      links = s.receiver.seq_link

      by_view :
          InOrder src base host.port links s.submitted s.delivered
          → Ends
              (λ r. Inv src base host.port (after_packet dst s r))
              (receive_data mip_daemon app_fd p (length p) s.receiver)
      by_view (inl (unknown, nothing)) = elim (Bool-cases (ltb (length links) max_links)) [
        | inl room ↦
            let (before, after, split, at) = split_at s.submitted index bytes nth in
            let (acc, exp) = accept_first src host.port host.seq_send links unknown small room in
            let count : host.seq_send + 1 ≡ base + (length before + 1) = omega arith in
            taken-Inv src base host.port dst mip_daemon app_fd s p (handed_over bytes src host.port)
              (reply mip_daemon app_fd (length p) p s.receiver)
              (links ++ (first_link src host.port host.seq_send ∷ [])) inv
              (carried_taken bytes stack time src k host long small mip_daemon app_fd s.receiver _
                acc)
              (inr (
                length links,
                before,
                bytes ∷ [],
                after,
                exp ∙ ap (λ e. some (length links, e)) count,
                split,
                ap (λ d. d ++ (handed_over bytes src host.port ∷ [])) nothing,
              ))
        | inr full ↦
            rw
              (carried_overrun bytes stack time src k host long small mip_daemon app_fd s.receiver
                (accept_full src host.port host.seq_send links unknown full))
              tt
      ]
      by_view (inr (i, before, run, after, known, split, d)) =
          let e : ℕ = base + (length before + length run) in
          elim (Bool-cases (host.seq_send == e)) [
            | inl hit ↦
                let here : index ≡ length before + length run =
                  omega (arith, eq_of_== host.seq_send e hit) in
                let (rest, split') =
                  next_message s.submitted before run after bytes split
                    (subst (λ j. get_elem? s.submitted j ≡ some bytes) here nth) in
                let count : next_seq e ≡ base + (length before + length (run ++ (bytes ∷ []))) =
                  next_seq-lt e (omega arith) ∙ omega (arith, length-append run (bytes ∷ [])) in
                taken-Inv src base host.port dst mip_daemon app_fd s p
                  (handed_over bytes src host.port)
                  (reply mip_daemon app_fd (length p) p s.receiver) (advance links i) inv
                  (carried_taken bytes stack time src k host long small mip_daemon app_fd s.receiver
                    (advance links i)
                    (accept_known src host.port i e host.seq_send links known
                      ∙ ap (λ t. ret (if t then some (advance links i) else none)) hit))
                  (inr (
                    i,
                    before,
                    run ++ (bytes ∷ []),
                    rest,
                    seq_exp-advance links src host.port i e known ∙ ap (λ n. some (i, n)) count,
                    split',
                    ap (λ l. l ++ (handed_over bytes src host.port ∷ [])) d
                        ∙ sym (
                            map-append (λ (b : List Byte). handed_over b src host.port) run
                              (bytes ∷ [])),
                  ))
            | inr miss ↦
                ignored-Inv src base host.port dst mip_daemon app_fd s p
                  (reply mip_daemon app_fd (length p) p s.receiver) inv
                  (carried_ignored bytes stack time src k host long small mip_daemon app_fd
                    s.receiver
                    (accept_known src host.port i e host.seq_send links known
                      ∙ ap (λ t. ret (if t then some (advance links i) else none)) miss))
          ]

  packet-Inv :
      (port : ℕ) (s : Transport) (p : List Byte)
      → Carries src base port s.submitted p
      → Inv src base port s
      → Ends
          (λ r. Inv src base port (after_packet dst s r))
          (receive_data mip_daemon app_fd p (length p) s.receiver)
  packet-Inv port s p c inv =
      subst
        (λ q.
          Ends (λ r. Inv src base port (after_packet dst s r))
            (receive_data mip_daemon app_fd q (length q) s.receiver))
        (sym c.packet)
        (subst
          (λ k.
            Inv src base k s
            → Ends (λ r. Inv src base k (after_packet dst s r))
                (receive_data mip_daemon app_fd
                  (carried src (node_for c.bytes c.stack c.time c.host))
                  (length (carried src (node_for c.bytes c.stack c.time c.host))) s.receiver))
          c.from
          (node-Inv c.bytes c.stack c.time c.more c.index c.host s c.nth c.long c.number c.small)
          inv)

  Step-Inv :
      (port : ℕ) {s t : Transport}
      → Step src dst mip_daemon app_fd s t
      → Inv src base port s
      → Inv src base port t
  Step-Inv port {s} (send bytes stack time k r long to small e) inv =
      Ends-ret _ _ r (send-Inv src base port mip_daemon time k bytes stack s long small inv) e
  Step-Inv port {s} (timeout time) inv = timeout-Inv src base port mip_daemon time s inv
  Step-Inv port {s} (packet i p r at e) inv =
      Ends-ret _ _ r (packet-Inv port s p (All-get_elem? _ s.packets i p inv.packets at) inv) e
  Step-Inv port {s} (ack i time a r at e) inv =
      Ends-ret _ _ r (ack-Inv src base port mip_daemon time _ s inv) e

module _ (src dst mip_daemon app_fd : ℕ) (sender receiver : Host)
    (unknown : seq_exp receiver.seq_link src sender.port ≡ none) where
  Reach-Inv :
      {s : Transport}
      → Reach src dst mip_daemon app_fd (start sender receiver) s
      → Inv src sender.seq_send sender.port s
  Reach-Inv started = record {
    packets = tt;
    queue = tt;
    from = refl;
    next = omega arith;
    view = inl (unknown, refl);
  }
  Reach-Inv (later r step) =
      Step-Inv src sender.seq_send dst mip_daemon app_fd sender.port step (Reach-Inv r)

  -- A receiver that has no link with the sender yet, over a network that loses, repeats and
  -- reorders packets and acknowledgements at will: in every state that is reached, before the
  -- numbers wrap, what its application was handed are the messages of one run of those that were
  -- submitted, each once and in their order, as the transport layer hands them over. The run need
  -- not start with the first message.
  pub delivered_in_order :
      (s : Transport)
      → Reach src dst mip_daemon app_fd (start sender receiver) s
      → (before run after : List (List Byte)) × (s.submitted ≡ before ++ (run ++ after))
        × (s.delivered ≡ map (λ (b : List Byte). handed_over b src sender.port) run)
  delivered_in_order s r = elim (Reach-Inv r).view [
    | inl (_, nothing) ↦ ([], [], s.submitted, refl, nothing)
    | inr (i, before, run, after, e, split, d) ↦ (before, run, after, split, d)
  ]
