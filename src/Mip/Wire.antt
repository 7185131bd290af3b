-- ===== src/Mip/Wire.antt =====
-- The packed headers of general.h and mip_daemon.h, as values and as bytes. Bit-fields fill a word
-- from its low bits, and words are little-endian, as the x86-64 ABI lays them out.
pub mod RoundTrip
use in_lib.Base.{
  ℕ, ◌+◌, ◌*◌, ◌/◌, ◌%◌, Bool, List, [], ◌∷◌, ◌++◌, if◌then◌else◌, Byte, get_or, drop,
}

-- `struct mip_hdr`: 8, 8, 4, 9 and 3 bits.
pub record MipHdr : Type 0 where
  pub dst : ℕ
  pub src : ℕ
  pub ttl : ℕ
  pub sdu_len : ℕ
  pub sdu_type : ℕ

-- An assignment to a bit-field keeps the low bits.
unfoldable pub create_mip_hdr : ℕ → ℕ → ℕ → ℕ → ℕ → MipHdr
create_mip_hdr dst src ttl sdu_len sdu_type = record {
  dst = dst % 256;
  src = src % 256;
  ttl = ttl % 16;
  sdu_len = sdu_len % 512;
  sdu_type = sdu_type % 8;
}

-- The 16 bits that hold `ttl`, `sdu_len` and `sdu_type`.
abbrev pub hdr_word : MipHdr → ℕ
hdr_word h = h.ttl + h.sdu_len * 16 + h.sdu_type * 8192

unfoldable pub hdr_bytes : MipHdr → List Byte
hdr_bytes h = h.dst ∷ h.src ∷ hdr_word h % 256 ∷ hdr_word h / 256 ∷ []

-- `(struct mip_hdr*)raw_buffer`.
abbrev pub word_of : List Byte → ℕ
word_of raw = get_or raw 2 0 + get_or raw 3 0 * 256

unfoldable pub hdr_of : List Byte → MipHdr
hdr_of raw = record {
  dst = get_or raw 0 0;
  src = get_or raw 1 0;
  ttl = word_of raw % 16;
  sdu_len = word_of raw / 16 % 512;
  sdu_type = word_of raw / 8192;
}

-- `struct arp_sdu`: 1, 8 and 23 bits.
pub record ArpSdu : Type 0 where
  pub type : ℕ
  pub address : ℕ
  pub padding : ℕ

unfoldable pub create_arp_sdu : ℕ → Bool → ArpSdu
create_arp_sdu mip request = record {
  type = if request then 0 else 1;
  address = mip % 256;
  padding = 0;
}

abbrev pub arp_word : ArpSdu → ℕ
arp_word a = a.type + a.address * 2 + a.padding * 512

unfoldable pub arp_bytes : ArpSdu → List Byte
arp_bytes a =
    arp_word a % 256
    ∷ arp_word a / 256 % 256
    ∷ arp_word a / 65536 % 256
    ∷ arp_word a / 16777216
    ∷ []

abbrev pub arp_word_of : List Byte → ℕ
arp_word_of sdu =
    get_or sdu 0 0 + get_or sdu 1 0 * 256 + get_or sdu 2 0 * 65536 + get_or sdu 3 0 * 16777216

unfoldable pub arp_of : List Byte → ArpSdu
arp_of sdu = record {
  type = arp_word_of sdu % 2;
  address = arp_word_of sdu / 2 % 256;
  padding = arp_word_of sdu / 512;
}

-- `struct raw_packet`. The memory behind what was copied into `sdu` is part of it.
pub record RawPacket : Type 0 where
  pub hdr : MipHdr
  pub sdu : List Byte

abbrev pub packet_bytes : RawPacket → List Byte
packet_bytes p = hdr_bytes p.hdr ++ p.sdu
