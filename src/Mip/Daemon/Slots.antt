-- ===== src/Mip/Daemon/Slots.antt =====
-- mip_daemon.c: the senders that the raw socket's branch enters into the cache.
use in_lib.Base.{
  ℕ, ◌≡◌, refl, ◌⊎◌, inl, inr, true, [], ◌∷◌, ◌++◌, none, some, ltb, Bool-cases, Option-cases,
  length, ret, failed, Ends, arith,
}
use in_lib.Mip.Wire.{hdr_of}
use in_lib.Mip.Link.{cache_table_len, CacheTable, check_cache, cache}
use in_lib.Mip.Link.CacheLaws.{IsCache, cache-IsCache, check_cache-append}
use in_lib.Mip.Daemon.{Received, recv_raw_packet}

-- Every received packet leaves its sender in the cache. A cache with one entry for each address
-- and no more than four entries stays so; only a new sender at a full cache ends the process.
pub recv_raw_packet_lem :
    (r : Received) (t : CacheTable)
    → IsCache t
    → ((t' : CacheTable) × (i : ℕ) × (recv_raw_packet r t ≡ ret t')
        × IsCache t'
        × (check_cache (hdr_of r.payload).src t' ≡ some i))
      ⊎ ((recv_raw_packet r t ≡ failed)
          × (check_cache (hdr_of r.payload).src t ≡ none)
          × (length t ≡ cache_table_len))
unfolding recv_raw_packet cache
recv_raw_packet_lem r t v =
    let src = (hdr_of r.payload).src in
    elim (Option-cases (check_cache src t)) [
      | inr (i, e) ↦ inl (t, i, rw (recv_raw_packet, e) refl, v, e)
      | inl e ↦ elim (Bool-cases (ltb (length t) cache_table_len)) [
        | inr full ↦ inr (rw (recv_raw_packet, e, full) refl, e, ground (arith, v.fits))
        | inl room ↦
            let (i, found) = check_cache-append src r.senders_iface r.src_addr t in
            inl (
              t ++ (record { mip = src; iface = r.senders_iface; mac = r.src_addr } ∷ []),
              i,
              rw (recv_raw_packet, e, room) refl,
              grown src e room,
              found,
            )
      ]
    ]
  where
    grown :
        (src : ℕ)
        → check_cache src t ≡ none
        → ltb (length t) cache_table_len ≡ true
        → IsCache (t ++ (record { mip = src; iface = r.senders_iface; mac = r.src_addr } ∷ []))
    grown src e room =
        let h : Ends IsCache (cache src r.senders_iface r.src_addr t) =
          cache-IsCache src r.senders_iface r.src_addr t e v in
        rw room at h
