-- ===== src/Network/Routers/Learning.antt =====
-- Hosts on a line learn the way to its first host.
use in_lib.Base.{
  ℕ, length, get_or, zero, suc, ◌+◌, ◌≤◌, ◌<◌, ◌≡◌, ◌≢◌, refl, sym, ap, ◌∙◌, subst, inl, inr, Bool,
  true, [], ◌∷◌, eq_of_==, Bool-cases, ==-ne, ◌==◌, if◌then◌else◌, get_elem?, ret, arith,
}
use in_lib.Packet.{of_bytes}
use in_lib.Routing.Table.{RoutingList, handle_hello, lookup}
use in_lib.Routing.Update.{update_routing_list}
use in_lib.Routing.Advertise.{update_for}
use in_lib.Mip.Link.{write}
use in_lib.Mip.Forward.{update_frame}
use in_lib.Mip.Daemon.{dispatch_raw}
use in_lib.Mip.Daemon.Clients.{arrives}
use in_lib.Network.Routers.{
  Sent, Routers, with_table, hello, advertise, update, empty, Reach, started, later,
}
use in_lib.Network.Routers.Way.{
  way, next_host, quiet_daemon, way_sent, hears_next, learns_way, IsKnown-way, lookup-way,
}

module _ (Linked : ℕ → ℕ → Type 0) (line : (m : ℕ) → Linked m (1 + m) × Linked (1 + m) m) where
  -- Host `1 + m` sends to host `m` what is for host 1, for the hosts up to `1 + n`; those behind have
  -- heard nothing.
  record Learnt (n : ℕ) (r : Routers) : Type 0 where
    pub reached : Reach Linked r
    pub hops : (m : ℕ) → 0 < m → m ≤ n → lookup 1 (r.tables (1 + m)) ≡ m
    pub last : r.tables (1 + n) ≡ way n ∷ []
    pub fresh : (j : ℕ) → 1 + n < j → r.tables j ≡ []

  at_host :
      (r : Routers) (host i : ℕ) (t : RoutingList) → host ≡ i → (with_table r host t).tables i ≡ t
  at_host r host i t e = ap (λ (b : Bool). if b then t else r.tables i) (==-eq host i e)
    where
      ==-eq : (a b : ℕ) → a ≡ b → (a == b) ≡ true
      ==-eq a b e = ground arith

  elsewhere :
      (r : Routers) (host i : ℕ) (t : RoutingList)
      → host ≢ i
      → (with_table r host t).tables i ≡ r.tables i
  elsewhere r host i t other = ap (λ (b : Bool). if b then t else r.tables i) (==-ne host i other)

  new_hops :
      (n : ℕ) (r : Routers)
      → n < 254
      → r.tables (1 + n) ≡ way n ∷ next_host n ∷ []
      → ((m : ℕ) → 0 < m → m < n → lookup 1 (r.tables (1 + m)) ≡ m)
      → (m : ℕ) → 0 < m
      → m ≤ 1 + n
      → lookup 1 ((with_table r (2 + n) (way (1 + n) ∷ [])).tables (1 + m)) ≡ m
  new_hops n r short two old m low high = elim (Bool-cases (m == 1 + n)) [
    | inl new ↦
        let e : m ≡ 1 + n = eq_of_== m (1 + n) new in
        ap (lookup 1) (at_host r (2 + n) (1 + m) (way (1 + n) ∷ []) (omega arith))
        ∙ (lookup-way (1 + n) [] (omega arith) ∙ sym e)
    | inr other ↦
        let stays = ap (lookup 1) (elsewhere r (2 + n) (1 + m) (way (1 + n) ∷ []) (ground arith)) in
        elim (Bool-cases (m == n)) [
          | inl same ↦
              let e : m ≡ n = eq_of_== m n same in
              stays
              ∙ (ap (λ k. lookup 1 (r.tables (1 + k))) e
                  ∙ (ap (lookup 1) two ∙ (lookup-way n (next_host n ∷ []) (omega arith) ∙ sym e)))
          | inr before ↦ stays ∙ old m low (ground arith)
        ]
  ]

  first_learns : (r : Routers) × Learnt 1 r
  unfolding handle_hello lookup
  first_learns = (
    heard,
    record {
      reached = later started (hello 2 1 0 (line 1).1);
      hops =
          λ m low high. subst (λ k. lookup 1 (heard.tables (1 + k)) ≡ k) (the_one m low high) refl;
      last = refl;
      fresh = λ j behind. elsewhere empty 2 j (way 1 ∷ []) (omega arith);
    },
  )
    where
      heard : Routers
      heard = with_table empty 2 (handle_hello 1 0 []).0

      the_one : (m : ℕ) → 0 < m → m ≤ 1 → 1 ≡ m
      the_one m low high = omega arith

  next_learns :
      (n : ℕ) (r : Routers) → 0 < n → n < 254 → Learnt n r → (s : Routers) × Learnt (1 + n) s
  next_learns n r pos short v =
      let t1 = (handle_hello (2 + n) 0 (r.tables (1 + n))).0 in
      let r1 = with_table r (1 + n) t1 in
      let two : r1.tables (1 + n) ≡ way n ∷ next_host n ∷ [] =
        at_host r (1 + n) (1 + n) t1 refl
        ∙ (ap (λ t. (handle_hello (2 + n) 0 t).0) v.last ∙ hears_next n pos) in
      let (up, from, few, sent_up) = way_sent n pos short in
      let sent : Sent = record { sender = 1 + n; target = 2 + n; packet = of_bytes up } in
      let r2 : Routers = record r1 { sent = sent ∷ r1.sent } in
      let none_yet : r2.tables (2 + n) ≡ [] =
        elsewhere r (1 + n) (2 + n) t1 (omega arith) ∙ v.fresh (2 + n) (omega arith) in
      let r3 = with_table r2 (2 + n) (way (1 + n) ∷ []) in
      (
        r3,
        record {
          reached =
              later
                (later
                  (later v.reached (
                    hello (1 + n) (2 + n) 0
                      (subst (Linked (1 + n)) (omega arith) (line (1 + n)).0)))
                  (advertise (1 + n) 1 (next_host n) quiet_daemon up (ap (λ t. get_elem? t 1) two)
                    refl (omega arith) (subst (λ t. length t ≤ 123) (sym two) (omega arith))
                    (subst (λ t. get_or (of_bytes (update_for (next_host n) t)).msg 3 0 ≤ 29)
                      (sym two) few)
                    (omega arith)
                    (subst
                      (λ t.
                        dispatch_raw
                          (arrives (update_frame (of_bytes (update_for (next_host n) t)) (1 + n)) 0
                            [])
                          (2 + n) [] [] quiet_daemon.fds quiet_daemon.mip
                        ≡ ret (quiet_daemon.mip, write 1 up ∷ []))
                      (sym two) sent_up)))
                (update 0 0 sent (way (1 + n) ∷ []) true refl
                  (IsKnown-way n (of_bytes up) (r2.tables (2 + n)) short from)
                  (ap (update_routing_list (of_bytes up) 0) none_yet
                    ∙ learns_way n (of_bytes up) short from));
          hops = new_hops n r2 short two (λ m low high.
              ap (lookup 1) (elsewhere r (1 + n) (1 + m) t1 (omega arith))
              ∙ v.hops m low (omega arith));
          last = at_host r2 (2 + n) (1 + (1 + n)) (way (1 + n) ∷ []) (omega arith);
          fresh = λ j behind.
              elsewhere r2 (2 + n) j (way (1 + n) ∷ []) (omega arith)
              ∙ (elsewhere r (1 + n) j t1 (omega arith) ∙ v.fresh j (omega arith));
        },
      )

  learnt : (n : ℕ) → n < 254 → (r : Routers) × Learnt (1 + n) r
  learnt zero short = first_learns
  learnt (suc n) short =
      let (r, v) = learnt n (omega arith) in
      let (s, w) = next_learns (1 + n) r (omega arith) (omega arith) v in
      (s, subst (λ k. Learnt k s) (omega arith) w)

  -- Hosts 1, 2, and so on stand on a line, linked both ways with the hosts beside them. For up to
  -- 253 of them behind the first there are hellos and updates, from empty tables on, after which
  -- each host of those sends what is for host 1 to the host before it.
  pub line_learns :
      (n : ℕ)
      → 0 < n
      → n ≤ 253
      → (r : Routers) × Reach Linked r × ((m : ℕ) → 0 < m → m ≤ n → lookup 1 (r.tables (1 + m)) ≡ m)
  line_learns zero pos high = absurd (omega arith)
  line_learns (suc n) pos high =
      let (r, v) = learnt n (omega arith) in
      (r, v.reached, λ m low high'. v.hops m low (omega arith))
