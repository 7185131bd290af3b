-- ===== src/Network/Transport/Keeps.antt =====
-- The sender's steps keep the invariant, and so do the two results of a packet.
use in_lib.Base.{
  ℕ, ◌+◌, ◌-◌, ◌<◌, ◌≡◌, refl, ap, ◌∙◌, subst, inl, inr, ltb, ◌==◌, if◌then◌else◌, List, [], ◌∷◌,
  ◌++◌, map, append_assoc, append-nil, Bool-cases, length, length-append, take, drop, Byte, bufsize,
  All, All-append, All-map, All-mono, All-take, All-drop, ret, overrun, Ends, arith,
}
use in_lib.Miptp.Host.{Host, Write, SeqLink, MessageNode, seq_limit, next_seq}
use in_lib.Miptp.Send.{forward_to_mip, in_window, write_node}
use in_lib.Miptp.Send.Window.{node_for, stamped, resend_window_lem, send_next_idle}
use in_lib.Miptp.Receive.{receive_data, receive_ack}
use in_lib.Miptp.Receive.InOrder.{next_seq-lt}
use in_lib.Network.Messages.{carried}
use in_lib.Network.Transport.{
  Transport, arriving, after_send, after_timeout, after_packet, after_ack,
}
use in_lib.Network.Transport.Invariant.{
  Carries, Carries-append, All-Carries-append, InOrder, Inv, get_elem?-snoc,
}

module _ (src base port : ℕ) where
  abbrev IsSent : List (List Byte) → MessageNode → Type 0
  IsSent submitted n = Carries src base port submitted (carried src n)

  All-IsSent-append :
      (submitted more : List (List Byte)) (ns : List MessageNode)
      → All (IsSent submitted) ns
      → All (IsSent (submitted ++ more)) ns
  All-IsSent-append submitted more ns h =
      All-mono _ _ ns (λ n c. Carries-append src base port submitted more (carried src n) c) h

  InOrder-append :
      (links : List SeqLink) (submitted more delivered : List (List Byte))
      → InOrder src base port links submitted delivered
      → InOrder src base port links (submitted ++ more) delivered
  InOrder-append links submitted more delivered (inl u) = inl u
  InOrder-append links submitted more delivered (inr (i, before, run, after, e, split, d)) = inr (
    i,
    before,
    run,
    after ++ more,
    e,
    ap (λ l. l ++ more) split
        ∙ append_assoc before (run ++ after) more
        ∙ ap (λ l. before ++ l) (append_assoc run after more),
    d,
  )

  -- `forward_to_mip` with the new node shut.
  forward_to_mip-node :
      (mip_daemon time : ℕ) (bytes stack : List Byte) (host : Host)
      → forward_to_mip mip_daemon bytes stack time host ≡ (
          let node = node_for bytes stack time host in
          let queue = host.message_queue ++ (node ∷ []) in
          if ltb (bufsize - 2) node.size
          then overrun
          else ret (
            record host { seq_send = next_seq host.seq_send; message_queue = queue },
            if in_window node.seq queue then write_node mip_daemon node ∷ [] else [],
          ))
  unfolding forward_to_mip
  forward_to_mip-node mip_daemon time bytes stack host = refl

  pub send-Inv :
      (mip_daemon time k : ℕ) (bytes stack : List Byte) (s : Transport)
      → length bytes ≡ 2 + k
      → s.sender.seq_send < seq_limit
      → Inv src base port s
      → Ends
          (λ r. Inv src base port (after_send src s bytes r))
          (forward_to_mip mip_daemon bytes stack time s.sender)
  send-Inv mip_daemon time k bytes stack s long small inv =
      let node = node_for bytes stack time s.sender in
      let submitted = s.submitted ++ (bytes ∷ []) in
      let new : IsSent submitted node = record {
        index = length s.submitted;
        more = k;
        time = time;
        bytes = bytes;
        stack = stack;
        host = s.sender;
        nth = get_elem?-snoc s.submitted bytes;
        long = long;
        from = inv.from;
        number = inv.next;
        small = omega (arith, inv.next);
        packet = refl;
      } in
      let old = All-Carries-append src base port s.submitted (bytes ∷ []) s.packets inv.packets in
      let queue =
        All-append _ s.sender.message_queue (node ∷ [])
          (All-IsSent-append s.submitted (bytes ∷ []) s.sender.message_queue inv.queue) (new, tt) in
      let next : next_seq s.sender.seq_send ≡ base + length submitted =
        next_seq-lt s.sender.seq_send small
        ∙ omega (arith, inv.next, length-append s.submitted (bytes ∷ [])) in
      let view = InOrder-append s.receiver.seq_link s.submitted (bytes ∷ []) s.delivered inv.view in
      rw (forward_to_mip-node mip_daemon time bytes stack s.sender)
        (elim (Bool-cases (ltb (bufsize - 2) node.size)) [
          | inl long ↦ rw long tt
          | inr fits ↦
              elim (Bool-cases (in_window node.seq (s.sender.message_queue ++ (node ∷ [])))) [
                | inl now ↦
                    rw (fits, now)
                      (record {
                        packets = (new, old);
                        queue = queue;
                        from = inv.from;
                        next = next;
                        view = view;
                      })
                | inr later ↦
                    rw (fits, later)
                      (record {
                        packets = old;
                        queue = queue;
                        from = inv.from;
                        next = next;
                        view = view;
                      })
              ]
        ])

  pub timeout-Inv :
      (mip_daemon time : ℕ) (s : Transport)
      → Inv src base port s
      → Inv src base port (after_timeout src mip_daemon time s)
  timeout-Inv mip_daemon time s inv =
      let queue = s.sender.message_queue in
      let first = All-take (IsSent s.submitted) 16 queue inv.queue in
      rw (resend_window_lem mip_daemon time queue) (record {
        packets =
            All-append _ (arriving src (map (write_node mip_daemon) (take 16 queue))) s.packets
              (All-map _ _ (map (write_node mip_daemon) (take 16 queue))
                (All-map _ (write_node mip_daemon) (take 16 queue) first))
              inv.packets;
        queue =
            All-append _ (stamped time (take 16 queue)) (drop 16 queue)
              (All-map _ _ (take 16 queue) first)
              (All-drop (IsSent s.submitted) 16 queue inv.queue);
        from = inv.from;
        next = inv.next;
        view = inv.view;
      })

  pub ack-Inv :
      (mip_daemon time seq : ℕ) (s : Transport)
      → Inv src base port s
      → Ends (λ r. Inv src base port (after_ack src s r)) (receive_ack mip_daemon time seq s.sender)
  unfolding receive_ack
  ack-Inv mip_daemon time seq s inv = by_queue s.sender.message_queue refl
    where
      by_queue :
          (queue : List MessageNode)
          → s.sender.message_queue ≡ queue
          → Ends
              (λ r. Inv src base port (after_ack src s r))
              (receive_ack mip_daemon time seq s.sender)
      by_queue [] e = rw (receive_ack, e) tt
      by_queue (first ∷ rest) e = elim (Bool-cases (seq == first.seq)) [
        | inl same ↦
            rw (receive_ack, e, same, send_next_idle mip_daemon time rest)
              (record {
                packets = inv.packets;
                queue = (subst (All (IsSent s.submitted)) e inv.queue).1;
                from = inv.from;
                next = inv.next;
                view = inv.view;
              })
        | inr other ↦ rw (receive_ack, e, other) inv
      ]

  -- A packet that is not accepted changes nothing but the acknowledgements.
  pub ignored-Inv :
      (dst mip_daemon app_fd : ℕ) (s : Transport) (p : List Byte) (w : Write)
      → Inv src base port s
      → receive_data mip_daemon app_fd p (length p) s.receiver ≡ ret (s.receiver, w ∷ [])
      → Ends
          (λ r. Inv src base port (after_packet dst s r))
          (receive_data mip_daemon app_fd p (length p) s.receiver)
  ignored-Inv dst mip_daemon app_fd s p w inv e = rw e (record {
    packets = inv.packets;
    queue = inv.queue;
    from = inv.from;
    next = inv.next;
    view = rw append-nil inv.view;
  })

  -- A packet that is accepted adds its message to what was delivered.
  pub taken-Inv :
      (dst mip_daemon app_fd : ℕ) (s : Transport) (p handed : List Byte) (w : Write)
      (links : List SeqLink)
      → Inv src base port s
      → receive_data mip_daemon app_fd p (length p) s.receiver
        ≡ ret (
          record s.receiver { seq_link = links },
          w ∷ record { fd = app_fd; bytes = handed } ∷ [],
        )
      → InOrder src base port links s.submitted (s.delivered ++ (handed ∷ []))
      → Ends
          (λ r. Inv src base port (after_packet dst s r))
          (receive_data mip_daemon app_fd p (length p) s.receiver)
  taken-Inv dst mip_daemon app_fd s p handed w links inv e view = rw e (record {
    packets = inv.packets;
    queue = inv.queue;
    from = inv.from;
    next = inv.next;
    view = view;
  })
