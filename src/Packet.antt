-- ===== src/Packet.antt =====
-- general.h: the packet that daemons and applications exchange over Unix sockets.
use in_lib.Base.{
  ℕ, ◌+◌, ◌<◌, ◌≡◌, sym, ◌∙◌, List, ◌∷◌, Byte, get_or, drop, first_bytes, get_or-drop,
  get_or-first_bytes,
}

-- `struct unix_packet`: two 8-bit fields in the first two bytes, then `msg`.
pub record UnixPacket : Type 0 where
  pub mip : ℕ
  pub ttl : ℕ
  pub msg : List Byte

-- The packet as it lies in memory.
abbrev pub to_bytes : UnixPacket → List Byte
to_bytes p = p.mip ∷ p.ttl ∷ p.msg

-- `(struct unix_packet*)buffer`; what lies behind the buffer's known contents reads as zero.
abbrev pub of_bytes : List Byte → UnixPacket
of_bytes buffer = record { mip = get_or buffer 0 0; ttl = get_or buffer 1 0; msg = drop 2 buffer }

abbrev pub max_nodes : ℕ
max_nodes = 20

abbrev pub max_links : ℕ
max_links = 30

abbrev pub default_ttl : ℕ
default_ttl = 3

-- What a reader finds in a packet of which the first `n` bytes were written.
pub get_or-msg :
    (p : UnixPacket) (n i : ℕ)
    → 2 + i < n
    → get_or (of_bytes (first_bytes n (to_bytes p))).msg i 0 ≡ get_or p.msg i 0
get_or-msg p n i h =
    get_or-drop 2 i (first_bytes n (to_bytes p)) 0
    ∙ get_or-first_bytes n (2 + i) (to_bytes p) h
    ∙ sym (get_or-drop 2 i (to_bytes p) 0)

pub mip-of_bytes :
    (p : UnixPacket) (n : ℕ) → 0 < n → (of_bytes (first_bytes n (to_bytes p))).mip ≡ p.mip
mip-of_bytes p n h = get_or-first_bytes n 0 (to_bytes p) h
