-- ===== src/Miptp/Main.antt =====
-- `main` of miptp_daemon.c: timeouts, new applications, packets of the MIP daemon and messages of
-- the applications, one round of `poll` after the other. `accept` and `read` are taken to succeed.
pub mod Ports
pub mod SamePort
pub mod Invariant
use in_lib.Base.{
  ℕ, zero, suc, ◌+◌, ◌%◌, ◌≡◌, Bool, true, false, List, [], ◌∷◌, ◌++◌, Option, none, some, ltb,
  ◌==◌, if◌then◌else◌, length, get_or, get_elem?, set, Byte, Run, ret, overrun, no_fuel, failed,
  ◌>>=◌,
}
use in_lib.Packet.{max_nodes}
use in_lib.Miptp.Host.{
  MessageNode, Host, Write, Writes, seq_limit, available_port, send_port_response,
}
use in_lib.Miptp.Send.{resend_window, forward_to_mip}
use in_lib.Miptp.Receive.{read_message}

abbrev pub approved : ℕ
approved = 1

abbrev pub denied : ℕ
denied = 0

-- `hosts` and `app_fds` up to `num_hosts`, and `done`.
pub record Miptp : Type 0 where
  pub hosts : List Host
  pub app_fds : List ℕ
  pub done : Bool

-- The first `for` loop: the window of a host is sent again when its first message has waited for
-- more than `timeout` seconds.
unfoldable pub resend_timed_out : ℕ → ℕ → ℕ → Host → Host × Writes
resend_timed_out mip_daemon timeout now host = elim host.message_queue [
  | [] ↦ (host, [])
  | first ∷ rest ↦
      (let (queue, out) = resend_window mip_daemon now (first ∷ rest) in
        if ltb (first.time + timeout) now
        then (record host { message_queue = queue }, out)
        else (host, []))
]

unfoldable pub check_timeouts : ℕ → ℕ → ℕ → List Host → List Host × Writes
unfolding resend_timed_out
check_timeouts mip_daemon timeout now [] = ([], [])
check_timeouts mip_daemon timeout now (host ∷ hosts) =
    let (host', out) = resend_timed_out mip_daemon timeout now host in
    let (hosts', more) = check_timeouts mip_daemon timeout now hosts in
    (host' ∷ hosts', out ++ more)

-- A new application. `fds` has two slots before those of the applications.
unfoldable pub connect : ℕ → ℕ → Miptp → Run Miptp
connect fd random m =
    if ltb (length m.hosts + 2) max_nodes
    then ret (record m {
      hosts =
          m.hosts
          ++ (record {
            port = 0;
            fd_index = length m.hosts;
            seq_link = [];
            seq_send = random % seq_limit;
            message_queue = [];
          }
              ∷ []);
      app_fds = m.app_fds ++ (fd ∷ []);
    })
    else overrun

-- What `poll` and `read` report of an application.
pub record AppEvent : Type 0 where
  pub pollhup : Bool
  pub pollin : Bool
  pub input : List Byte
  pub stack : List Byte
  pub time : ℕ

-- An application without a port asks for one.
unfoldable pub request_port : ℕ → ℕ → Byte → List Host → Host → List Host × Writes
request_port i fd port hosts host =
    if available_port hosts port
    then (set hosts i (record host { port = port }), send_port_response fd port approved ∷ [])
    else (hosts, send_port_response fd host.port denied ∷ [])

-- The body of the `for` loop over the applications.
unfoldable pub serve_app : ℕ → AppEvent → ℕ → Miptp → Run (Miptp × Writes)
unfolding request_port
serve_app mip_daemon event i m =
    let fd = get_or m.app_fds i 0 in
    if event.pollhup
    then ret (record m { app_fds = set m.app_fds i 0 }, [])
    else if event.pollin
    then elim (get_elem? m.hosts i) [
      | none ↦ overrun
      | some host ↦
          if host.port == 0
          then (let (hosts, out) = request_port i fd (get_or event.input 0 0) m.hosts host in
              ret (record m { hosts = hosts }, out))
          else (forward_to_mip mip_daemon event.input event.stack event.time host >>= λ r.
              ret (record m { hosts = set m.hosts i r.0 }, r.1))
    ]
    else ret (m, [])

unfoldable pub serve_apps : ℕ → ℕ → (ℕ → AppEvent) → ℕ → Miptp → Run (Miptp × Writes)
unfolding serve_app
serve_apps zero mip_daemon events i m = ret (m, [])
serve_apps (suc left) mip_daemon events i m = serve_app mip_daemon (events i) i m >>= λ a.
    serve_apps left mip_daemon events (i + 1) a.0 >>= λ b. ret (b.0, a.1 ++ b.1)

-- One round: the clock at its start, and what `poll` and the calls after it report.
pub record Round : Type 0 where
  pub now : ℕ
  pub mip_hup : Bool
  pub connects : Bool
  pub mip_in : Bool
  pub accepted : ℕ
  pub random : ℕ
  pub message : List Byte
  pub stack : List Byte
  pub time : ℕ
  pub apps : ℕ → AppEvent

-- What follows `poll` in a round.
unfoldable pub serve : ℕ → Round → Miptp → Run (Miptp × Writes)
unfolding connect serve_apps
serve mip_daemon r m =
    if r.mip_hup
    then ret (record m { done = true }, [])
    else if r.connects
    then (connect r.accepted r.random m >>= λ m'. ret (m', []))
    else if r.mip_in
    then (read_message mip_daemon r.message r.stack r.time m.hosts m.app_fds >>= λ a.
        ret (record m { hosts = a.0 }, a.1))
    else serve_apps (length m.hosts) mip_daemon r.apps 0 m

-- `while (!done)`.
unfoldable pub run : ℕ → ℕ → List Round → Miptp → Run (Miptp × Writes)
unfolding check_timeouts serve
run mip_daemon timeout [] m = ret (m, [])
run mip_daemon timeout (r ∷ rs) m = elim m.done [
  | true ↦ ret (m, [])
  | false ↦
      (let (hosts, resent) = check_timeouts mip_daemon timeout r.now m.hosts in
        serve mip_daemon r (record m { hosts = hosts }) >>= λ a.
        run mip_daemon timeout rs a.0 >>= λ b. ret (b.0, resent ++ (a.1 ++ b.1)))
]
