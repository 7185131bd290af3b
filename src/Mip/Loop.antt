-- ===== src/Mip/Loop.antt =====
-- `poll_loop` of mip_daemon.c: the slots of `fds` in turn, round after round. Time is in seconds.
pub mod Bounds
use in_lib.Base.{
  ℕ, zero, suc, ◌+◌, true, false, List, [], ◌∷◌, ◌++◌, none, some, ltb, ◌==◌, if◌then◌else◌, get_or,
  set, Run, ret, ◌>>=◌,
}
use in_lib.Mip.Link.{IfAddr, close, Outputs}
use in_lib.Mip.Forward.{Mip, handle_routing_msg}
use in_lib.Mip.Daemon.{
  Events, PollFd, zero_fd, max_events, num_fds, Daemon, fd_at, Calls, handle_new_client,
  identify_unix_client, receive_raw, receive_client,
}

abbrev with_mip : Daemon → Run (Mip × Outputs) → Run (Daemon × Outputs)
with_mip d r = r >>= λ a. ret (record d { mip = a.0 }, a.1)

-- A client has hung up.
abbrev hang_up : Daemon → ℕ → Daemon × Outputs
hang_up d i = (
  record d { fds = set d.fds i (record (get_or d.fds i zero_fd) { fd = 0 }) },
  close (fd_at d i) ∷ [],
)

-- The branches for a slot with POLLIN.
unfoldable pub serve : ℕ → List IfAddr → Calls → Daemon → ℕ → Run (Daemon × Outputs)
serve mip_addr ifaces calls d i =
    if i == 0
    then elim calls.accepted [
      | none ↦ ret (d, [])
      | some client ↦ handle_new_client client d.fds >>= λ fds. ret (record d { fds = fds }, [])
    ]
    else if i == 1
    then with_mip d (receive_raw calls.received mip_addr ifaces calls.stack d.fds d.mip)
    else if ltb i max_events
    then if i == 3
      then with_mip d (handle_routing_msg calls.reads mip_addr ifaces d.mip)
      else with_mip d (receive_client calls.reads i mip_addr (fd_at d 3) calls.stack d.mip)
    else ret (record d { fds = identify_unix_client calls.identifier i d.fds }, [])

-- The body of the `for` loop.
unfoldable pub handle_slot : ℕ → List IfAddr → Calls → Daemon → ℕ → Run (Daemon × Outputs)
unfolding serve
handle_slot mip_addr ifaces calls d i =
    let revents = (get_or d.fds i zero_fd).revents in
    if revents.pollhup
    then ret (hang_up d i)
    else if revents.pollin
    then serve mip_addr ifaces calls d i
    else ret (d, [])

-- The `for` loop from slot `i` on.
unfoldable pub handle_slots :
    ℕ → ℕ → List IfAddr → (ℕ → Calls) → Daemon → ℕ → Run (Daemon × Outputs)
unfolding handle_slot
handle_slots zero mip_addr ifaces calls d i = ret (d, [])
handle_slots (suc more) mip_addr ifaces calls d i =
    handle_slot mip_addr ifaces (calls i) d i >>= λ a.
    handle_slots more mip_addr ifaces calls a.0 (i + 1) >>= λ b. ret (b.0, a.1 ++ b.1)

-- One return of `poll` with events: the clock, `revents`, and the calls of each slot.
pub record Poll : Type 0 where
  pub now : ℕ
  pub revents : ℕ → Events
  pub calls : ℕ → Calls
  pub ifaces : List IfAddr

-- `poll` writes the `revents` of every slot.
unfoldable pub with_revents : (ℕ → Events) → ℕ → List PollFd → List PollFd
with_revents revents i [] = []
with_revents revents i (slot ∷ rest) =
    record slot { revents = revents i } ∷ with_revents revents (i + 1) rest

-- The `while` loop, over the returns of `poll` that report events; it ends after 60 seconds.
unfoldable pub poll_loop : List Poll → ℕ → ℕ → Daemon → Run (Daemon × Outputs)
unfolding handle_slots with_revents
poll_loop [] start mip_addr d = ret (d, [])
poll_loop (p ∷ ps) start mip_addr d = elim (ltb (start + 60) p.now) [
  | true ↦ ret (d, [])
  | false ↦
      handle_slots num_fds mip_addr p.ifaces p.calls
        (record d { fds = with_revents p.revents 0 d.fds }) 0
      >>= λ a. poll_loop ps start mip_addr a.0 >>= λ b. ret (b.0, a.1 ++ b.1)
]
