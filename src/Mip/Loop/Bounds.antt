-- ===== src/Mip/Loop/Bounds.antt =====
-- `poll_loop`: what holds of the daemon from slot to slot and from round to round.
use in_lib.Base.{
  ℕ, zero, suc, ◌+◌, ◌≡◌, refl, ap, ◌∙◌, inl, inr, List, [], ◌∷◌, Option, none, some, ltb, ◌==◌,
  length, length-set, get_or, Bool-cases, All, All-append, Run, ret, ◌>>=◌, Ends, Ends->>=, Ends-if,
}
use in_lib.Mip.Link.{IfAddr, Outputs}
use in_lib.Mip.Forward.{Mip}
use in_lib.Mip.Forward.Bounds.{IsMip, Keeps, IsBytes, handle_routing_msg-Keeps}
use in_lib.Mip.Link.Bounds.{Short, AllShort}
use in_lib.Mip.Daemon.{
  Events, PollFd, zero_fd, max_events, num_fds, Daemon, fd_at, Calls, handle_new_client,
}
use in_lib.Mip.Daemon.Bounds.{
  IsFds, handle_new_client-IsFds, identify_unix_client-IsFds, receive_raw-Keeps,
  receive_client-Keeps,
}
use in_lib.Mip.Loop.{serve, handle_slot, handle_slots, Poll, with_revents, poll_loop, with_mip}

pub record IsDaemon (d : Daemon) : Type 0 where
  pub slots : IsFds d.fds
  pub globals : IsMip d.mip

abbrev pub KeepsDaemon : Daemon × Outputs → Type 0
KeepsDaemon r = IsDaemon r.0 × AllShort r.1

-- What `read` puts into a buffer.
abbrev pub IsPoll : Poll → Type 0
IsPoll p = (i : ℕ) → IsBytes (p.calls i).reads

with_mip-Keeps :
    (d : Daemon) (r : Run (Mip × Outputs))
    → IsDaemon d
    → Ends Keeps r
    → Ends KeepsDaemon (with_mip d r)
with_mip-Keeps d r v h =
    Ends->>= Keeps KeepsDaemon r _ h (λ a k. (record { slots = v.slots; globals = k.0 }, k.1))

new_client-Keeps :
    (accepted : Option ℕ) (d : Daemon)
    → IsDaemon d
    → Ends KeepsDaemon (elim accepted [
      | none ↦ ret (d, [])
      | some client ↦ handle_new_client client d.fds >>= λ fds. ret (record d { fds = fds }, [])
    ])
new_client-Keeps none d v = (v, tt)
new_client-Keeps (some client) d v =
    Ends->>= IsFds KeepsDaemon _ _ (handle_new_client-IsFds client d.fds v.slots)
      (λ fds slots. (record { slots = slots; globals = v.globals }, tt))

serve-Keeps :
    (mip_addr : ℕ) (ifaces : List IfAddr) (calls : Calls) (d : Daemon) (i : ℕ)
    → IsBytes calls.reads
    → IsDaemon d
    → Ends KeepsDaemon (serve mip_addr ifaces calls d i)
unfolding serve
serve-Keeps mip_addr ifaces calls d i bytes v =
    Ends-if KeepsDaemon (i == 0) _ _ (new_client-Keeps calls.accepted d v) (
      Ends-if KeepsDaemon (i == 1) _ _
        (with_mip-Keeps d _ v
          (receive_raw-Keeps calls.received mip_addr ifaces calls.stack d.fds d.mip v.globals))
        (Ends-if KeepsDaemon (ltb i max_events) _ _
          (Ends-if KeepsDaemon (i == 3) _ _
            (with_mip-Keeps d _ v
              (handle_routing_msg-Keeps calls.reads mip_addr ifaces d.mip bytes v.globals))
            (with_mip-Keeps d _ v (
              receive_client-Keeps calls.reads i mip_addr (fd_at d 3) calls.stack d.mip v.globals)))
          (
            record {
              slots = identify_unix_client-IsFds calls.identifier i d.fds v.slots;
              globals = v.globals;
            },
            tt,
          )))

handle_slot-Keeps :
    (mip_addr : ℕ) (ifaces : List IfAddr) (calls : Calls) (d : Daemon) (i : ℕ)
    → IsBytes calls.reads
    → IsDaemon d
    → Ends KeepsDaemon (handle_slot mip_addr ifaces calls d i)
unfolding handle_slot
handle_slot-Keeps mip_addr ifaces calls d i bytes v =
    Ends-if KeepsDaemon (get_or d.fds i zero_fd).revents.pollhup _ _
      (record { slots = length-set d.fds i _ ∙ v.slots; globals = v.globals }, (tt, tt))
      (Ends-if KeepsDaemon (get_or d.fds i zero_fd).revents.pollin _ _
        (serve-Keeps mip_addr ifaces calls d i bytes v) (v, tt))

handle_slots-Keeps :
    (more mip_addr : ℕ) (ifaces : List IfAddr) (calls : ℕ → Calls) (d : Daemon) (i : ℕ)
    → ((j : ℕ) → IsBytes (calls j).reads)
    → IsDaemon d
    → Ends KeepsDaemon (handle_slots more mip_addr ifaces calls d i)
unfolding handle_slots
handle_slots-Keeps zero mip_addr ifaces calls d i bytes v = (v, tt)
handle_slots-Keeps (suc more) mip_addr ifaces calls d i bytes v =
    Ends->>= KeepsDaemon KeepsDaemon _ _
      (handle_slot-Keeps mip_addr ifaces (calls i) d i (bytes i) v)
      (λ a k.
        Ends->>= KeepsDaemon KeepsDaemon _ _
          (handle_slots-Keeps more mip_addr ifaces calls a.0 (i + 1) bytes k.0)
          (λ b l. (l.0, All-append Short a.1 b.1 k.1 l.1)))

length-with_revents :
    (revents : ℕ → Events) (i : ℕ) (fds : List PollFd)
    → length (with_revents revents i fds) ≡ length fds
unfolding with_revents
length-with_revents revents i [] = refl
length-with_revents revents i (slot ∷ rest) = ap suc (length-with_revents revents (i + 1) rest)

-- With any events and any results of the system calls, as long as what is read are bytes: a daemon
-- whose `fds` has seven slots, whose cache has at most four entries, one for each address, and in
-- whose queues every length fits nine bits, stays so, and no frame that it sends is longer than
-- 2048 bytes, so that every one fits its buffer.
pub poll_loop-KeepsDaemon :
    (ps : List Poll) (start mip_addr : ℕ) (d : Daemon)
    → All IsPoll ps
    → IsDaemon d
    → Ends KeepsDaemon (poll_loop ps start mip_addr d)
unfolding poll_loop
poll_loop-KeepsDaemon [] start mip_addr d polls v = (v, tt)
poll_loop-KeepsDaemon (p ∷ ps) start mip_addr d polls v =
    elim (Bool-cases (ltb (start + 60) p.now)) [
      | inl late ↦ rw (poll_loop, late) (v, tt)
      | inr early ↦
          rw (poll_loop, early)
            (Ends->>= KeepsDaemon KeepsDaemon _ _
              (handle_slots-Keeps num_fds mip_addr p.ifaces p.calls _ 0 polls.0 (record {
                slots = length-with_revents p.revents 0 d.fds ∙ v.slots;
                globals = v.globals;
              }))
              (λ a k.
                Ends->>= KeepsDaemon KeepsDaemon _ _
                  (poll_loop-KeepsDaemon ps start mip_addr a.0 polls.1 k.0)
                  (λ b l. (l.0, All-append Short a.1 b.1 k.1 l.1))))
    ]
