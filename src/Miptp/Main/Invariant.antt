-- ===== src/Miptp/Main/Invariant.antt =====
-- miptp_daemon.c: what holds of the hosts from round to round.
use in_lib.Base.{
  ℕ, zero, suc, ◌+◌, ◌≡◌, refl, sym, subst, ◌≢◌, ◌⊎◌, inl, inr, List, [], ◌∷◌, ◌++◌, map-append,
  ltb, ◌==◌, ◌&&◌, ◌/◌, ◌%◌, if◌then◌else◌, Bool-cases, Option-cases, length, get_or, get_elem?,
  Byte, overlay, All-append, Ends, Ends->>=, arith,
}
use in_lib.Packet.{of_bytes, max_nodes}
use in_lib.Miptp.Host.{Host, Writes, MessageNode, field_of, index_of_port}
use in_lib.Miptp.Receive.{read_message, receive_ack, receive_data}
use in_lib.Miptp.Main.{
  Miptp, AppEvent, Round, resend_timed_out, check_timeouts, connect, serve_app, serve_apps, serve,
  run,
}
use in_lib.Miptp.Main.Ports.{ports_of, Unique, request_port-Unique}
use in_lib.Miptp.Main.SamePort.{
  ports-update, SamePort, forward_to_mip-SamePort, receive_ack-SamePort, receive_data-SamePort,
}

abbrev UniqueHosts : List Host × Writes → Type 0
UniqueHosts r = Unique (ports_of r.0)

abbrev UniqueMiptp : Miptp → Type 0
UniqueMiptp m = Unique (ports_of m.hosts)

abbrev pub KeepsPorts : Miptp × Writes → Type 0
KeepsPorts r = Unique (ports_of r.0.hosts)

read_message-UniqueHosts :
    (mip_daemon time : ℕ) (bytes stack : List Byte) (hosts : List Host) (applications : List ℕ)
    → Unique (ports_of hosts)
    → Ends UniqueHosts (read_message mip_daemon bytes stack time hosts applications)
unfolding read_message
read_message-UniqueHosts mip_daemon time bytes stack hosts applications u =
    elim (Option-cases (index_of_port (get_or (of_bytes (overlay bytes stack)).msg 1 0) hosts)) [
      | inl unknown ↦ rw (read_message, unknown) tt
      | inr (index, known) ↦ elim (Option-cases (get_elem? hosts index)) [
        | inl outside ↦ rw (read_message, known, outside) tt
        | inr (host, inside) ↦
            rw (read_message, known, inside)
              (Ends->>= (SamePort host) UniqueHosts _ _ (either host index)
                (λ r same. subst Unique (sym (ports-update hosts index host r.0 inside same)) u))
      ]
    ]
  where
    either :
        (host : Host) (index : ℕ)
        → Ends (SamePort host) (
            if (length bytes == 8) && (field_of (of_bytes (overlay bytes stack)).msg % 4 == 2)
            then receive_ack mip_daemon time
                (field_of (of_bytes (overlay bytes stack)).msg / 4)
                host
            else receive_data mip_daemon
                (get_or applications index 0)
                (overlay bytes stack)
                (length bytes)
                host)
    either host index =
        elim (Bool-cases
          ((length bytes == 8) && (field_of (of_bytes (overlay bytes stack)).msg % 4 == 2))) [
            | inl ack ↦ rw ack (
                receive_ack-SamePort mip_daemon time
                  (field_of (of_bytes (overlay bytes stack)).msg / 4) host)
            | inr message ↦ rw message (
                receive_data-SamePort mip_daemon (get_or applications index 0) (length bytes)
                  (overlay bytes stack) host)
          ]

serve_app-KeepsPorts :
    (mip_daemon i : ℕ) (event : AppEvent) (m : Miptp)
    → UniqueMiptp m
    → Ends KeepsPorts (serve_app mip_daemon event i m)
unfolding serve_app
serve_app-KeepsPorts mip_daemon i event m u = elim (Bool-cases event.pollhup) [
  | inl hup ↦ rw (serve_app, hup) u
  | inr up ↦ elim (Bool-cases event.pollin) [
    | inr idle ↦ rw (serve_app, up, idle) u
    | inl input ↦ elim (Option-cases (get_elem? m.hosts i)) [
      | inl outside ↦ rw (serve_app, up, input, outside) tt
      | inr (host, inside) ↦ elim (Bool-cases (host.port == 0)) [
        | inl asks ↦
            rw (serve_app, up, input, inside, asks)
              (request_port-Unique i (get_or m.app_fds i 0) (get_or event.input 0 0) m.hosts host u)
        | inr has_port ↦
            rw (serve_app, up, input, inside, has_port)
              (Ends->>= (SamePort host) KeepsPorts _ _
                (forward_to_mip-SamePort mip_daemon event.time event.input event.stack host)
                (λ r same. subst Unique (sym (ports-update m.hosts i host r.0 inside same)) u))
      ]
    ]
  ]
]

serve_apps-KeepsPorts :
    (left mip_daemon i : ℕ) (events : ℕ → AppEvent) (m : Miptp)
    → UniqueMiptp m
    → Ends KeepsPorts (serve_apps left mip_daemon events i m)
unfolding serve_apps
serve_apps-KeepsPorts zero mip_daemon i events m u = u
serve_apps-KeepsPorts (suc left) mip_daemon i events m u =
    Ends->>= KeepsPorts KeepsPorts _ _ (serve_app-KeepsPorts mip_daemon i (events i) m u) (λ a v.
      Ends->>= KeepsPorts KeepsPorts _ _
        (serve_apps-KeepsPorts left mip_daemon (i + 1) events a.0 v) (λ b w. w))

ports-resend :
    (mip_daemon timeout now : ℕ) (host : Host)
    → (resend_timed_out mip_daemon timeout now host).0.port ≡ host.port
unfolding resend_timed_out
ports-resend mip_daemon timeout now host = by_queue host.message_queue refl
  where
    by_queue :
        (queue : List MessageNode)
        → host.message_queue ≡ queue
        → (resend_timed_out mip_daemon timeout now host).0.port ≡ host.port
    by_queue [] e = rw (resend_timed_out, e) refl
    by_queue (first ∷ rest) e = elim (Bool-cases (ltb (first.time + timeout) now)) [
      | inl late ↦ rw (resend_timed_out, e, late) refl
      | inr early ↦ rw (resend_timed_out, e, early) refl
    ]

ports-check_timeouts :
    (mip_daemon timeout now : ℕ) (hosts : List Host)
    → ports_of (check_timeouts mip_daemon timeout now hosts).0 ≡ ports_of hosts
unfolding check_timeouts
ports-check_timeouts mip_daemon timeout now [] = refl
ports-check_timeouts mip_daemon timeout now (host ∷ hosts) = ground (
  arith,
  ports-resend mip_daemon timeout now host,
  ports-check_timeouts mip_daemon timeout now hosts,
)

-- A new application has port 0.
Unique-snoc : (ps : List ℕ) → Unique ps → Unique (ps ++ (0 ∷ []))
Unique-snoc [] u = (tt, tt)
Unique-snoc (p ∷ ps) u = (All-append _ ps (0 ∷ []) u.0 (zero_or_other p, tt), Unique-snoc ps u.1)
  where
    zero_or_other : (q : ℕ) → (q ≡ 0) ⊎ (q ≢ 0)
    zero_or_other zero = inl refl
    zero_or_other (suc q) = inr (omega arith)

connect-UniqueMiptp :
    (fd random : ℕ) (m : Miptp) → UniqueMiptp m → Ends UniqueMiptp (connect fd random m)
unfolding connect
connect-UniqueMiptp fd random m u = elim (Bool-cases (ltb (length m.hosts + 2) max_nodes)) [
  | inl room ↦ rw (connect, room, map-append) (Unique-snoc (ports_of m.hosts) u)
  | inr full ↦ rw (connect, full) tt
]

serve-KeepsPorts :
    (mip_daemon : ℕ) (r : Round) (m : Miptp)
    → UniqueMiptp m
    → Ends KeepsPorts (serve mip_daemon r m)
unfolding serve
serve-KeepsPorts mip_daemon r m u = elim (Bool-cases r.mip_hup) [
  | inl hup ↦ rw (serve, hup) u
  | inr up ↦ elim (Bool-cases r.connects) [
    | inl new ↦
        rw (serve, up, new)
          (Ends->>= UniqueMiptp KeepsPorts _ _ (connect-UniqueMiptp r.accepted r.random m u)
            (λ a v. v))
    | inr old ↦ elim (Bool-cases r.mip_in) [
      | inl input ↦
          rw (serve, up, old, input)
            (Ends->>= UniqueHosts KeepsPorts _ _
              (read_message-UniqueHosts mip_daemon r.time r.message r.stack m.hosts m.app_fds u)
              (λ a v. v))
      | inr idle ↦
          rw (serve, up, old, idle) (serve_apps-KeepsPorts (length m.hosts) mip_daemon 0 r.apps m u)
    ]
  ]
]

-- From hosts of which no two have the same port, other than 0 for none, the main loop ends over any
-- rounds, with any timeout, messages and requests: with such hosts again, or by leaving an array.
pub run-KeepsPorts :
    (mip_daemon timeout : ℕ) (rs : List Round) (m : Miptp)
    → Unique (ports_of m.hosts)
    → Ends KeepsPorts (run mip_daemon timeout rs m)
unfolding run
run-KeepsPorts mip_daemon timeout [] m u = u
run-KeepsPorts mip_daemon timeout (r ∷ rs) m u = elim (Bool-cases m.done) [
  | inl done ↦ rw (run, done) u
  | inr more ↦
      rw (run, more)
        (Ends->>= KeepsPorts KeepsPorts _ _
          (serve-KeepsPorts mip_daemon r
            (record m { hosts = (check_timeouts mip_daemon timeout r.now m.hosts).0 })
            (subst Unique (sym (ports-check_timeouts mip_daemon timeout r.now m.hosts)) u))
          (λ a v.
            Ends->>= KeepsPorts KeepsPorts _ _ (run-KeepsPorts mip_daemon timeout rs a.0 v)
              (λ b w. w)))
]
