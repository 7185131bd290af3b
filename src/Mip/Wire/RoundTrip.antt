-- ===== src/Mip/Wire/RoundTrip.antt =====
-- The headers survive the wire.
use in_lib.Base.{ℕ, ◌<◌, ◌≡◌, Bool, true, false, List, ◌++◌, if◌then◌else◌, Byte, arith}
use in_lib.Mip.Wire.{MipHdr, create_mip_hdr, hdr_bytes, hdr_of, create_arp_sdu, arp_bytes, arp_of}

-- The ranges that the bit-fields hold.
pub record IsHdr (h : MipHdr) : Type 0 where
  pub dst_in : h.dst < 256
  pub src_in : h.src < 256
  pub ttl_in : h.ttl < 16
  pub len_in : h.sdu_len < 512
  pub type_in : h.sdu_type < 8

pub create_mip_hdr-IsHdr : (d s t l y : ℕ) → IsHdr (create_mip_hdr d s t l y)
unfolding create_mip_hdr
create_mip_hdr-IsHdr d s t l y = omega arith

-- The header that a receiver reads is the one that was written, whatever follows it, where every
-- field fits its width.
pub hdr_of-hdr_bytes : (h : MipHdr) (rest : List Byte) → IsHdr h → hdr_of (hdr_bytes h ++ rest) ≡ h
unfolding hdr_of hdr_bytes
hdr_of-hdr_bytes h rest v = ground arith

pub arp_of-create :
    (mip : ℕ) (request : Bool) (rest : List Byte)
    → mip < 256
    → arp_of (arp_bytes (create_arp_sdu mip request) ++ rest)
      ≡ record { type = if request then 0 else 1; address = mip; padding = 0 }
unfolding arp_of arp_bytes create_arp_sdu
arp_of-create mip true rest h = ground arith
arp_of-create mip false rest h = ground arith
