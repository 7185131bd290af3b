-- ===== src/Miptp/Main/SamePort.antt =====
-- miptp_utils.c: the handlers of a host leave its port as it is.
use in_lib.Base.{
  ℕ, zero, suc, ◌+◌, ◌-◌, ◌≡◌, refl, ap, inl, inr, List, [], ◌∷◌, Option, none, some, ltb, ◌==◌,
  ◌/◌, ◌%◌, Bool-cases, Option-cases, length, get_or, get_elem?, set, Byte, bufsize, overlay, ret,
  ◌>>=◌, Ends, Ends->>=, arith,
}
use in_lib.Packet.{of_bytes, max_links}
use in_lib.Miptp.Host.{Host, Writes, SeqLink, MessageNode, field_of}
use in_lib.Miptp.Send.{forward_to_mip, message_for, send_ack}
use in_lib.Miptp.Receive.{seq_exp, receive_ack, receive_data, accept, app_message}
use in_lib.Miptp.Main.Ports.{ports_of}

pub ports-update :
    (hosts : List Host) (i : ℕ) (host host' : Host)
    → get_elem? hosts i ≡ some host
    → host'.port ≡ host.port
    → ports_of (set hosts i host') ≡ ports_of hosts
ports-update [] i host host' e p = refl
ports-update (x ∷ hosts) zero host host' e p = ground arith
ports-update (x ∷ hosts) (suc i) host host' e p =
    ap (◌∷◌ x.port) (ports-update hosts i host host' e p)

abbrev pub SamePort : Host → Host × Writes → Type 0
SamePort host r = r.0.port ≡ host.port

pub forward_to_mip-SamePort :
    (mip_daemon time : ℕ) (bytes stack : List Byte) (host : Host)
    → Ends (SamePort host) (forward_to_mip mip_daemon bytes stack time host)
unfolding forward_to_mip
forward_to_mip-SamePort mip_daemon time bytes stack host =
    elim (Bool-cases
      (ltb (bufsize - 2) (message_for (overlay bytes stack) (length bytes) time host).size)) [
        | inl long ↦ rw (forward_to_mip, long) tt
        | inr fits ↦ rw (forward_to_mip, fits) refl
      ]

pub receive_ack-SamePort :
    (mip_daemon time seq : ℕ) (host : Host)
    → Ends (SamePort host) (receive_ack mip_daemon time seq host)
unfolding receive_ack
receive_ack-SamePort mip_daemon time seq host = by_queue host.message_queue refl
  where
    by_queue :
        (queue : List MessageNode)
        → host.message_queue ≡ queue
        → Ends (SamePort host) (receive_ack mip_daemon time seq host)
    by_queue [] e = rw (receive_ack, e) tt
    by_queue (first ∷ rest) e = elim (Bool-cases (seq == first.seq)) [
      | inl same ↦ rw (receive_ack, e, same) refl
      | inr other ↦ rw (receive_ack, e, other) refl
    ]

app_message-Ends :
    (buffer : List Byte) (rc padding src_mip src_port : ℕ)
    → Ends (λ b. Unit) (app_message buffer rc padding src_mip src_port)
unfolding app_message
app_message-Ends buffer rc padding src_mip src_port = elim (Bool-cases (ltb rc (6 + padding))) [
  | inl short ↦ rw (app_message, short) tt
  | inr enough ↦ rw (app_message, enough) tt
]

accept-Ends :
    (src_mip src_port seq : ℕ) (links : List SeqLink)
    → Ends (λ l. Unit) (accept src_mip src_port seq links)
unfolding accept
accept-Ends src_mip src_port seq links = elim (Option-cases (seq_exp links src_mip src_port)) [
  | inl unknown ↦ elim (Bool-cases (ltb (length links) max_links)) [
    | inl room ↦ rw (accept, unknown, room) tt
    | inr full ↦ rw (accept, unknown, full) tt
  ]
  | inr (_, known) ↦ rw (accept, known) tt
]

pub receive_data-SamePort :
    (mip_daemon app_fd rc : ℕ) (buffer : List Byte) (host : Host)
    → Ends (SamePort host) (receive_data mip_daemon app_fd buffer rc host)
unfolding receive_data
receive_data-SamePort mip_daemon app_fd rc buffer host =
    Ends->>= (λ l. Unit) (SamePort host) _ _
      (accept-Ends (of_bytes buffer).mip (get_or (of_bytes buffer).msg 0 0)
        (field_of (of_bytes buffer).msg / 4) host.seq_link)
      handed
  where
    handed :
        (accepted : Option (List SeqLink))
        → Unit {0}
        → Ends (SamePort host) (elim accepted [
          | none ↦ ret (
            host,
            send_ack mip_daemon
                  (get_or (of_bytes buffer).msg 0 0)
                  (of_bytes buffer).mip
                  (field_of (of_bytes buffer).msg / 4)
                  (get_or (of_bytes buffer).msg 1 0)
                ∷ [],
          )
          | some links ↦
              app_message buffer rc
                (field_of (of_bytes buffer).msg % 4)
                (of_bytes buffer).mip
                (get_or (of_bytes buffer).msg 0 0)
              >>= λ bytes. ret (
                record host { seq_link = links },
                send_ack mip_daemon
                      (get_or (of_bytes buffer).msg 0 0)
                      (of_bytes buffer).mip
                      (field_of (of_bytes buffer).msg / 4)
                      (get_or (of_bytes buffer).msg 1 0)
                    ∷ record { fd = app_fd; bytes = bytes }
                    ∷ [],
              )
        ])
    handed none u = refl
    handed (some links) u =
        Ends->>= (λ b. Unit) (SamePort host) _ _
          (app_message-Ends buffer rc (field_of (of_bytes buffer).msg % 4) (of_bytes buffer).mip
            (get_or (of_bytes buffer).msg 0 0))
          (λ b v. refl)
