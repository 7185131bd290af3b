-- ===== src/Mip/Daemon/Transit.antt =====
-- mip_daemon.c: a ping or a MIPTP frame for another host is passed on.
use in_lib.Base.{
  ℕ, zero, suc, ◌⊎◌, inl, inr, ◌+◌, ◌-◌, ◌*◌, ◌<◌, ◌≡◌, refl, ap, ◌∙◌, List, [], ◌∷◌, ◌++◌,
  append_assoc, length, drop, Byte, first_bytes, overlay, first_bytes_pad, arith,
}
use in_lib.Mip.Wire.{MipHdr, hdr_bytes, RawPacket}
use in_lib.Mip.Wire.RoundTrip.{IsHdr, hdr_of-hdr_bytes}
use in_lib.Mip.Queue.{add_to_waiting_queue}
use in_lib.Mip.Forward.{Mip, send_req_to_router, frame_of}
use in_lib.Mip.Forward.Delivery.{frame_of_lem}
use in_lib.Mip.Daemon.{Received, pass_on}

abbrev pub enqueue : Mip → RawPacket → Mip
enqueue m p = record m { routing_queue = add_to_waiting_queue m.routing_queue p }

pub drop4-hdr_bytes : (h : MipHdr) (body : List Byte) → drop 4 (hdr_bytes h ++ body) ≡ body
unfolding hdr_bytes
drop4-hdr_bytes h body = refl

zero_or_pos : (n : ℕ) → (n ≡ 0) ⊎ (0 < n)
zero_or_pos zero = inl refl
zero_or_pos (suc n) = inr (omega arith)

-- Of the frames to be passed on, with a header whose fields fit and which counts the words of the
-- body, one with a TTL of 0 is dropped, and nothing is asked for it. With any other TTL one
-- request for the next hop goes to the routing daemon, and a packet is queued whose frame is the
-- frame that came, with the TTL lower by one.
pub pass_on_lem :
    (h : MipHdr) (body stack : List Byte) (iface : ℕ) (mac : List Byte)
    → (mip_addr router : ℕ) (m : Mip) → IsHdr h
    → h.sdu_len * 4 ≡ length body
    → let r : Received = record {
      payload = hdr_bytes h ++ body;
      senders_iface = iface;
      src_addr = mac;
    } in
      ((h.ttl ≡ 0) × (pass_on r mip_addr router stack m ≡ (m, [])))
      ⊎ ((0 < h.ttl)
          × (p : RawPacket) × (pass_on r mip_addr router stack m
              ≡ (enqueue m p, send_req_to_router mip_addr h.dst router ∷ []))
          × (p.hdr ≡ record h { ttl = h.ttl - 1 })
          × (frame_of p ≡ hdr_bytes (record h { ttl = h.ttl - 1 }) ++ body))
unfolding pass_on
pass_on_lem h body stack iface mac mip_addr router m v e = elim (zero_or_pos h.ttl) [
  | inl z ↦ inl (z, ground (arith, hdr_of-hdr_bytes h body v))
  | inr pos ↦ inr (
    pos,
    record {
      hdr = record h { ttl = h.ttl - 1 };
      sdu = overlay (drop 4 (first_bytes (length payload + 14) payload)) stack;
    },
    ground (arith, hdr_of-hdr_bytes h body v),
    refl,
    ap (λ s. frame_of (record { hdr = record h { ttl = h.ttl - 1 }; sdu = s })) copied
        ∙ frame_of_lem (record h { ttl = h.ttl - 1 }) body _ e,
  )
]
  where
    payload : List Byte
    payload = hdr_bytes h ++ body

    body' : List Byte
    body' = drop 4 (first_bytes (length payload + 14) payload)

    padded : body' ≡ body ++ first_bytes 14 []
    padded =
        ap (drop 4)
          (first_bytes_pad payload 14 ∙ append_assoc (hdr_bytes h) body (first_bytes 14 []))
        ∙ drop4-hdr_bytes h (body ++ first_bytes 14 [])

    copied : overlay body' stack ≡ body ++ (first_bytes 14 [] ++ drop (length body') stack)
    copied =
        ap (λ b. b ++ drop (length body') stack) padded
        ∙ append_assoc body (first_bytes 14 []) (drop (length body') stack)
