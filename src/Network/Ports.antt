-- ===== src/Network/Ports.antt =====
-- The programs of the file transfer ask MIPTP for a port: file_server.c and file_transfer.c against
-- the loop of miptp_daemon.c.
use in_lib.Base.{
  ℕ, zero, suc, ◌+◌, ◌%◌, ◌≡◌, ◌≢◌, refl, sym, ap, subst, ◌∙◌, ◌⊎◌, ◌==◌, eq_of_==, All, get_elem?,
  inl, inr, true, false, List, [], ◌∷◌, map, Option, none, some, ltb, Bool-cases, length, get_or,
  set, Byte, Run, ret, failed, overrun, no_fuel, ◌>>=◌, arith,
}
use in_lib.Unix.{Socket, open_socket}
use in_lib.Miptp.Host.{Host, Writes, available_port, send_port_response}
use in_lib.Miptp.Main.{request_port, approved, denied}
use in_lib.FileTransfer.Links.{connect_to_miptp, write_identifying_msg}
use in_lib.FileTransfer.Server
use in_lib.FileTransfer.Server.{serve}
use in_lib.FileTransfer.Client.{Attempt, ask_port}

-- What an application reads of what MIPTP writes to it.
abbrev pub answer_of : Writes → List Byte
answer_of [] = []
answer_of (w ∷ ws) = w.bytes

-- What MIPTP does when the application at index `i` asks for a port.
abbrev pub asked : ℕ → ℕ → List Host → Host → ℕ → List Host × Writes
asked i fd hosts host port = request_port i fd (get_or (write_identifying_msg port) 0 0) hosts host

granted :
    (i fd port : ℕ) (hosts : List Host) (host : Host)
    → available_port hosts port ≡ true
    → asked i fd hosts host port
      ≡ (set hosts i (record host { port = port }), send_port_response fd port approved ∷ [])
unfolding request_port write_identifying_msg
granted i fd port hosts host free = rw (request_port, free) refl

refused :
    (i fd port : ℕ) (hosts : List Host) (host : Host)
    → available_port hosts port ≡ false
    → asked i fd hosts host port ≡ (hosts, send_port_response fd host.port denied ∷ [])
unfolding request_port write_identifying_msg
refused i fd port hosts host taken = rw (request_port, taken) refl

-- No application has that port.
abbrev pub IsFree : List Host → ℕ → Type 0
IsFree hosts port = All (λ h. h.port ≢ port) hosts

-- An application has that port.
abbrev pub IsTaken : List Host → ℕ → Type 0
IsTaken hosts port = (k : ℕ) × (h : Host) × (get_elem? hosts k ≡ some h) × (h.port ≡ port)

available_port-IsFree :
    (hosts : List Host) (port : ℕ) → available_port hosts port ≡ true → IsFree hosts port
unfolding available_port
available_port-IsFree [] port free = tt
available_port-IsFree (h ∷ hosts) port free = ground (arith, available_port-IsFree hosts port)

available_port-IsTaken :
    (hosts : List Host) (port : ℕ) → available_port hosts port ≡ false → IsTaken hosts port
unfolding available_port
available_port-IsTaken [] port taken = absurd (cc)
available_port-IsTaken (h ∷ hosts) port taken = elim (Bool-cases (h.port == port)) [
  | inl same ↦ (0, h, refl, eq_of_== _ _ same)
  | inr other ↦
      let (k, h', at, e) = available_port-IsTaken hosts port (ground arith) in (suc k, h', at, e)
]

get_elem?-set_same :
    (hosts : List Host) (i : ℕ) (host v : Host)
    → get_elem? hosts i ≡ some host
    → get_elem? (set hosts i v) i ≡ some v
get_elem?-set_same [] i host v e = absurd (cc)
get_elem?-set_same (h ∷ hosts) zero host v e = refl
get_elem?-set_same (h ∷ hosts) (suc i) host v e = get_elem?-set_same hosts i host v e

get_elem?-set_other :
    (hosts : List Host) (i j : ℕ) (v : Host)
    → j ≢ i
    → get_elem? (set hosts i v) j ≡ get_elem? hosts j
get_elem?-set_other [] i j v ne = refl
get_elem?-set_other (h ∷ hosts) zero zero v ne = absurd (ne refl)
get_elem?-set_other (h ∷ hosts) zero (suc j) v ne = refl
get_elem?-set_other (h ∷ hosts) (suc i) zero v ne = refl
get_elem?-set_other (h ∷ hosts) (suc i) (suc j) v ne =
    get_elem?-set_other hosts i j v λ e. ne (ap suc e)

-- The application at index `i` has the port, and everything else is as it was.
abbrev pub Enters : List Host → ℕ → Host → ℕ → List Host → Type 0
Enters hosts i host port hosts' =
    (get_elem? hosts' i ≡ some (record host { port = port }))
    × ((j : ℕ) → j ≢ i → get_elem? hosts' j ≡ get_elem? hosts j)

-- A file server that is connected to MIPTP, as the application at index `i`, asks for its port. If
-- no application has it, MIPTP enters it for the server and changes nothing else, and the server
-- goes on to its loop; if one has it, MIPTP changes nothing, and the server ends.
pub server_asks :
    (s : Socket) (miptp_fd i fd port : ℕ) (hosts : List Host) (host : Host)
    (reads : List (Option (List Byte)))
    → open_socket s ≡ ret miptp_fd
    → get_elem? hosts i ≡ some host
    → let r = asked i fd hosts host port in
      (IsFree hosts port
        × Enters hosts i host port r.0
        × (Server.main s port (answer_of r.1) reads
            ≡ (serve reads [] >>= λ links. ret (write_identifying_msg port ∷ [], links))))
      ⊎ (IsTaken hosts port × (r.0 ≡ hosts) × (Server.main s port (answer_of r.1) reads ≡ failed))
unfolding Server.main connect_to_miptp send_port_response
server_asks s miptp_fd i fd port hosts host reads opened at =
    let entered = record host { port = port } in
    elim (Bool-cases (available_port hosts port)) [
      | inl free ↦
          let g = granted i fd port hosts host free in
          inl (
            available_port-IsFree hosts port free,
            subst (λ r. Enters hosts i host port r.0) (sym g)
                (
                  get_elem?-set_same hosts i host entered at,
                  λ j. get_elem?-set_other hosts i j entered,
                ),
            rw (g, Server.main, connect_to_miptp, opened) refl,
          )
      | inr taken ↦
          let g = refused i fd port hosts host taken in
          inr (
            available_port-IsTaken hosts port taken,
            ap (λ r. r.0) g,
            rw (g, Server.main, connect_to_miptp, opened) refl,
          )
    ]

-- Which of the ports tried in turn is the first that no application has.
pub data FirstFree (hosts : List Host) : List ℕ → Option ℕ → Type 0 where
  none_left : FirstFree hosts [] none
  found : {port : ℕ} {more : List ℕ} → IsFree hosts port → FirstFree hosts (port ∷ more) (some port)
  later :
      {port : ℕ} {more : List ℕ} {o : Option ℕ}
      → IsTaken hosts port
      → FirstFree hosts more o
      → FirstFree hosts (port ∷ more) o

-- An attempt that MIPTP answers.
abbrev pub attempt : ℕ → ℕ → List Host → Host → ℕ → Attempt
attempt i fd hosts host random = record {
  random = random;
  answer = answer_of (asked i fd hosts host (random % 256)).1;
}

abbrev pub port_or_end : Option ℕ → Run ℕ
port_or_end none = failed
port_or_end (some port) = ret port

-- The port, with a request that was written before.
abbrev also : List Byte → ℕ × List (List Byte) → Run (ℕ × List (List Byte))
also request r = ret (r.0, request ∷ r.1)

-- What was written before does not change the port.
same_result :
    (m : Run (ℕ × List (List Byte))) (request : List Byte)
    → (m >>= also request >>= λ r. ret r.0) ≡ (m >>= λ r. ret r.0)
same_result (ret r) request = refl
same_result failed request = refl
same_result overrun request = refl
same_result no_fuel request = refl

-- The ports that the client asks for.
abbrev pub ports : List ℕ → List ℕ
ports = map (λ random. random % 256)

attempts_left :
    (tried i fd : ℕ) (hosts : List Host) (host : Host) (randoms : List ℕ)
    → tried + length randoms ≡ 3
    → (o : Option ℕ) × FirstFree hosts (ports randoms) o
      × ((ask_port tried (map (attempt i fd hosts host) randoms) >>= λ r. ret r.0) ≡ port_or_end o)
unfolding ask_port send_port_response
attempts_left tried i fd hosts host [] count = (none, none_left, ground arith)
attempts_left tried i fd hosts host (random ∷ more) count =
    let port = random % 256 in
    let early : ltb 2 tried ≡ false = ground arith in
    elim (Bool-cases (available_port hosts port)) [
      | inl free ↦ (
        some port,
        found (available_port-IsFree hosts port free),
        rw (ask_port, early, granted i fd port hosts host free) refl,
      )
      | inr taken ↦
          let (o, first, rest) = attempts_left (tried + 1) i fd hosts host more (omega arith) in
          (
            o,
            later (available_port-IsTaken hosts port taken) first,
            rw (ask_port, early, refused i fd port hosts host taken)
                (same_result (ask_port (tried + 1) (map (attempt i fd hosts host) more)) _ ∙ rest),
          )
    ]

-- The client makes three attempts with the numbers that `rand` gives, and MIPTP answers each: the
-- client gets the first port, of the three numbers modulo 256, that no application has, and ends if
-- there is none.
pub client_asks :
    (i fd : ℕ) (hosts : List Host) (host : Host) (a b c : ℕ)
    → (o : Option ℕ) × FirstFree hosts (ports (a ∷ b ∷ c ∷ [])) o
      × ((ask_port 0 (map (attempt i fd hosts host) (a ∷ b ∷ c ∷ [])) >>= λ r. ret r.0)
          ≡ port_or_end o)
client_asks i fd hosts host a b c = attempts_left 0 i fd hosts host (a ∷ b ∷ c ∷ []) refl
