-- ===== src/Arguments.antt =====
-- `argparser` of the seven programs. What `getopt` returns in turn and the arguments from `optind` on
-- are given, and so is `atoi`, whose result is the word that the machine stores for an `int`.
mod Tests
use in_lib.Base.{
  ℕ, ◌%◌, Bool, true, false, List, [], ◌∷◌, Option, none, some, ltb, ◌==◌, if◌then◌else◌, length,
  get_elem?, Byte, bufsize, Run, ret, failed, overrun, ◌>>=◌,
}

pub record Args : Type 0 where
  pub options : List Byte
  pub operands : List (List Byte)

-- `getopt (argc, argv, "h")`: the help exits, and anything else aborts.
unfoldable pub no_options : List Byte → Run Bool
no_options [] = ret false
no_options (c ∷ more) = failed

-- `getopt (argc, argv, "hd")`: the result is `debug_mode`.
unfoldable pub debug_option : Bool → List Byte → Run Bool
debug_option debug_mode [] = ret debug_mode
debug_option debug_mode (c ∷ more) =
    let rest = debug_option true more in if c == b'd' then rest else failed

-- `argv[index+i]`, which is a null pointer behind the last argument.
unfoldable pub argument : Args → ℕ → Run (List Byte)
argument a i = elim (get_elem? a.operands i) [ none ↦ overrun | some text ↦ ret text ]

-- `strcpy` into an array of `BUFSIZE`.
unfoldable pub copied : Args → ℕ → Run (List Byte)
unfolding argument
copied a i = argument a i >>= λ text. if ltb (length text) bufsize then ret text else overrun

pub record MipDaemonArgs : Type 0 where
  pub debug_mode : Bool
  pub path : List Byte
  pub mip_addr : ℕ

pub record MiptpArgs : Type 0 where
  pub timeout_secs : ℕ
  pub mip_daemon : List Byte
  pub path_to_higher : List Byte

pub record FileServerArgs : Type 0 where
  pub port : ℕ
  pub path_to_miptp : List Byte
  pub directory : List Byte

pub record FileTransferArgs : Type 0 where
  pub path_to_file : List Byte
  pub path_to_miptp : List Byte
  pub dst_mip : ℕ
  pub dst_port : ℕ

pub record PingClientArgs : Type 0 where
  pub mip_dst : ℕ
  pub ttl : ℕ
  pub msg : List Byte
  pub path : List Byte

pub record PingServerArgs : Type 0 where
  pub ttl : ℕ
  pub path : List Byte

module _ (atoi : List Byte → ℕ) where
  -- `atoi`, stored in a `uint8_t`.
  unfoldable pub small_number : Args → ℕ → Run ℕ
  unfolding argument
  small_number a i = argument a i >>= λ text. ret (atoi text % 256)

  unfoldable pub mip_daemon : Args → Run MipDaemonArgs
  unfolding debug_option copied small_number
  mip_daemon a = debug_option false a.options >>= λ debug_mode. copied a 0 >>= λ path.
      small_number a 1 >>= λ mip_addr.
      ret (record { debug_mode = debug_mode; path = path; mip_addr = mip_addr })

  unfoldable pub routing_daemon : Args → Run (List Byte)
  unfolding no_options copied
  routing_daemon a = no_options a.options >>= λ _. copied a 0

  -- The timeout is an `int`.
  unfoldable pub miptp_daemon : Args → Run MiptpArgs
  unfolding no_options argument copied
  miptp_daemon a = no_options a.options >>= λ _. argument a 0 >>= λ timeout. copied a 1 >>= λ lower.
      copied a 2 >>= λ higher.
      ret (record { timeout_secs = atoi timeout; mip_daemon = lower; path_to_higher = higher })

  unfoldable pub file_server : Args → Run FileServerArgs
  unfolding no_options small_number copied
  file_server a = no_options a.options >>= λ _. small_number a 0 >>= λ port. copied a 1 >>= λ path.
      copied a 2 >>= λ directory.
      ret (record { port = port; path_to_miptp = path; directory = directory })

  unfoldable pub file_transfer : Args → Run FileTransferArgs
  unfolding no_options small_number copied
  file_transfer a = no_options a.options >>= λ _. copied a 0 >>= λ file. copied a 1 >>= λ path.
      small_number a 2 >>= λ mip. small_number a 3 >>= λ port.
      ret (record { path_to_file = file; path_to_miptp = path; dst_mip = mip; dst_port = port })

  unfoldable pub ping_client : Args → Run PingClientArgs
  unfolding no_options small_number copied
  ping_client a = no_options a.options >>= λ _. small_number a 0 >>= λ mip_dst.
      small_number a 1 >>= λ ttl. copied a 2 >>= λ msg.
      copied a 3 >>= λ path. ret (record { mip_dst = mip_dst; ttl = ttl; msg = msg; path = path })

  unfoldable pub ping_server : Args → Run PingServerArgs
  unfolding no_options small_number copied
  ping_server a = no_options a.options >>= λ _.
      small_number a 0 >>= λ ttl. copied a 1 >>= λ path. ret (record { ttl = ttl; path = path })
