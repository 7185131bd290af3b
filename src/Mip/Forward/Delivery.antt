-- ===== src/Mip/Forward/Delivery.antt =====
-- The bytes of a waiting packet on the wire.
use in_lib.Base.{
  ◌+◌, ◌*◌, ◌≡◌, sym, ap, ◌∙◌, List, ◌++◌, append_assoc, length, Byte, first_bytes, align4,
  first_bytes_prefix, arith,
}
use in_lib.Mip.Wire.{MipHdr, hdr_bytes}
use in_lib.Mip.Forward.{frame_of}

pub length-hdr_bytes :
    (h : MipHdr) (body : List Byte) → length (hdr_bytes h ++ body) ≡ 4 + length body
unfolding hdr_bytes
length-hdr_bytes h body = omega arith

-- A packet whose `sdu_len` counts the words of `body` is sent as its header and `body`.
pub frame_of_lem :
    (h : MipHdr) (body rest : List Byte)
    → h.sdu_len * 4 ≡ length body
    → frame_of (record { hdr = h; sdu = body ++ rest }) ≡ hdr_bytes h ++ body
unfolding frame_of
frame_of_lem h body rest e =
    ap (first_bytes (align4 (h.sdu_len * 4 + 4))) (sym (append_assoc (hdr_bytes h) body rest))
    ∙ first_bytes_prefix (hdr_bytes h ++ body) rest (align4 (h.sdu_len * 4 + 4))
        (ground (arith, length-hdr_bytes h body))
