-- ===== src/Arguments/Tests.antt =====
-- Concrete command lines. The numbers stand for themselves: `atoi` is the first byte.
use in_lib.Base.{ℕ, ◌≡◌, refl, true, List, [], ◌∷◌, Byte, get_or, ret, failed, overrun}
use in_lib.Arguments.{
  mip_daemon, ping_server, ping_client, no_options, debug_option, argument, copied, small_number,
}

abbrev first : List Byte → ℕ
first text = get_or text 0 0

debug_daemon :
    mip_daemon first (record { options = b'd' ∷ []; operands = (b's' ∷ []) ∷ (10 ∷ []) ∷ [] })
    ≡ ret (record { debug_mode = true; path = b's' ∷ []; mip_addr = 10 })
unfolding mip_daemon debug_option argument copied small_number
debug_daemon = refl

-- An address that is too large wraps.
wrapped_ttl :
    ping_server first (record { options = []; operands = (259 ∷ []) ∷ (b's' ∷ []) ∷ [] })
    ≡ ret (record { ttl = 3; path = b's' ∷ [] })
unfolding ping_server no_options argument copied small_number
wrapped_ttl = refl

help_ends : ping_server first (record { options = b'h' ∷ []; operands = [] }) ≡ failed
unfolding ping_server no_options
help_ends = refl

-- The path is missing.
too_few :
    ping_client first (record { options = []; operands = (20 ∷ []) ∷ (3 ∷ []) ∷ (b'x' ∷ []) ∷ [] })
    ≡ overrun
unfolding ping_client no_options argument copied small_number
too_few = refl
