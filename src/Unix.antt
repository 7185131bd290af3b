-- ===== src/Unix.antt =====
-- The Unix sockets that every program opens as it starts. What `socket` returns and whether `connect`
-- or `bind` succeeds is an argument.
use in_lib.Base.{
  ℕ, Bool, true, false, List, Option, none, some, ltb, if◌then◌else◌, length, Byte, Run, ret,
  failed, overrun, Ends, arith,
}

-- The path, the file descriptor (`none` for -1), and whether the second call succeeds.
pub record Socket : Type 0 where
  pub path : List Byte
  pub fd : Option ℕ
  pub accepted : Bool

-- The size of `sun_path`, the zero at the path's end included.
abbrev pub sun_path_size : ℕ
sun_path_size = 108

-- `socket`, the copy of the path, and `connect` or `bind`. The test of the lengths behind the copy
-- never holds.
unfoldable pub open_socket : Socket → Run ℕ
open_socket s = elim s.fd [
  | none ↦ failed
  | some fd ↦
      if ltb (length s.path) sun_path_size then if s.accepted then ret fd else failed else overrun
]

pub open_socket-Ends : (s : Socket) → Ends (λ _. Unit) (open_socket s)
unfolding open_socket
open_socket-Ends s = by_result s.fd s.accepted
  where
    by_result :
        (fd : Option ℕ) (accepted : Bool)
        → Ends (λ _. Unit) (open_socket (record { path = s.path; fd = fd; accepted = accepted }))
    by_result none accepted = tt
    by_result (some fd) true = ground arith
    by_result (some fd) false = ground arith
