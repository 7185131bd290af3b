-- ===== src/Routing/Advertise/Decode.antt =====
-- What a neighbour reads out of an update packet: the table with split horizon and poisoned
-- reverse, as long as the 8-bit sizes hold it.
use in_lib.Base.{
  ℕ, zero, suc, ◌+◌, ◌*◌, ◌%◌, ◌≤◌, ◌<◌, ◌≡◌, refl, sym, ap, ◌∙◌, ap₂, true, List, [], ◌∷◌, ◌++◌,
  append-nil, append_assoc, ◌==◌, if◌then◌else◌, length, length-append, get_or, drop, Byte,
  first_bytes, align4, get_or-first_bytes, get_or-drop, starts_with3, arith,
}
use in_lib.Packet.{UnixPacket, to_bytes, of_bytes, get_or-msg, mip-of_bytes}
use in_lib.Routing.Table.{Node, RoutingList, max_distance}
use in_lib.Routing.Update.{UpdatePair, pairs_of, announced}
use in_lib.Routing.Advertise.{store, fill_pairs, pair_bytes, update_buffer, update_for}

-- The pairs that are meant for `to`: all entries but its own, and `MAX_DISTANCE` for what goes
-- through it.
abbrev pub advert : Node → RoutingList → List UpdatePair
advert to [] = []
advert to (n ∷ rest) =
    let later = advert to rest in
    if n.mip == to.mip
    then later
    else record {
      mip_target = n.mip;
      distance = if n.next_mip == to.mip then max_distance else n.distance;
    }
      ∷ later

pub length-advert-le : (to : Node) (t : RoutingList) → length (advert to t) ≤ length t
length-advert-le to [] = omega arith
length-advert-le to (n ∷ rest) = ground (arith, length-advert-le to rest)

store-length :
    (ps : List UpdatePair) (k : ℕ) (p : UpdatePair) → k ≡ length ps → store ps k p ≡ ps ++ (p ∷ [])
unfolding store
store-length [] k p e = refl
store-length (q ∷ ps) zero p e = absurd (omega arith)
store-length (q ∷ ps) (suc k) p e = ap (◌∷◌ q) (store-length ps k p (omega arith))

abbrev pair_for : Node → Node → UpdatePair
pair_for to n = record {
  mip_target = n.mip;
  distance = if n.next_mip == to.mip then max_distance else n.distance;
}

fill_pairs_lem :
    (to : Node) (t : RoutingList) (ps : List UpdatePair) (k : ℕ)
    → k ≡ length ps
    → k + length t < 256
    → fill_pairs to t ps k ≡ (ps ++ advert to t, k + length (advert to t))
unfolding fill_pairs
fill_pairs_lem to [] ps k e h = ground (arith, append-nil ps)
fill_pairs_lem to (n ∷ rest) ps k e h = ground (
  arith,
  store-length ps k (pair_for to n),
  fill_pairs_lem to rest ps k,
  fill_pairs_lem to rest (ps ++ (pair_for to n ∷ [])) (k + 1),
  append_assoc ps (pair_for to n ∷ []) (advert to rest),
  length-append ps (pair_for to n ∷ []),
)

-- Reading pairs looks at the bytes `0` up to `2 * count - 1` only.
pairs_of_agree :
    (k : ℕ) (xs ys : List Byte)
    → ((i : ℕ) → i < 2 * k → get_or xs i 0 ≡ get_or ys i 0)
    → pairs_of k xs ≡ pairs_of k ys
unfolding pairs_of
pairs_of_agree zero xs ys h = refl
pairs_of_agree (suc k) xs ys h =
    ap₂ ◌∷◌ (λ j. record { mip_target = h 0 (omega arith) j; distance = h 1 (omega arith) j })
      (pairs_of_agree k (drop 2 xs) (drop 2 ys)
        λ i l. get_or-drop 2 i xs 0 ∙ h (2 + i) (omega arith) ∙ sym (get_or-drop 2 i ys 0))

pairs_of-pair_bytes : (ps : List UpdatePair) → pairs_of (length ps) (pair_bytes ps) ≡ ps
unfolding pairs_of pair_bytes
pairs_of-pair_bytes [] = refl
pairs_of-pair_bytes (p ∷ ps) = ap (◌∷◌ p) (pairs_of-pair_bytes ps)

-- Two packets that agree on the bytes that the announced count covers announce the same.
pub announced_agree :
    (p q : UnixPacket) (k : ℕ)
    → get_or p.msg 3 0 ≡ k
    → ((i : ℕ) → i < 4 + 2 * k → get_or p.msg i 0 ≡ get_or q.msg i 0)
    → announced p ≡ announced q
announced_agree p q k e h =
    pairs_of_agree (get_or p.msg 3 0) (drop 4 p.msg) (drop 4 q.msg)
      (λ i l. get_or-drop 4 i p.msg 0 ∙ h (4 + i) (omega arith) ∙ sym (get_or-drop 4 i q.msg 0))
    ∙ ap (λ c. pairs_of c (drop 4 q.msg)) (h 3 (omega arith))

sizes_fit :
    (k : ℕ)
    → k ≤ 123
    → ((4 + (0 + k) * 2) % 256 ≡ 4 + 2 * k)
      × (align4 ((2 + (4 + (0 + k) * 2) % 256) % 256) % 256 ≡ align4 (6 + 2 * k))
sizes_fit k h = (omega arith, ground arith)

-- The bytes of the packet with `k` pairs.
abbrev packet_of : Node → List UpdatePair → ℕ → UnixPacket
packet_of to ps k = record {
  mip = to.mip;
  ttl = 1;
  msg = first_bytes (4 + 2 * k) (update_buffer ps k);
}

update_for-eq :
    (to : Node) (t : RoutingList) (k : ℕ)
    → k ≡ length (advert to t)
    → length t ≤ 123
    → update_for to t ≡ first_bytes (align4 (6 + 2 * k)) (to_bytes (packet_of to (advert to t) k))
unfolding update_for
update_for-eq to t k e h =
    let fits = sizes_fit (length (advert to t)) (omega (arith, length-advert-le to t)) in
    let count : 0 + length (advert to t) ≡ length (advert to t) = omega arith in
    rw (e, update_for, fill_pairs_lem to t [] 0 refl (omega arith))
      (λ j.
        first_bytes (fits.1 j)
          (to.mip ∷ 1 ∷ first_bytes (fits.0 j) (update_buffer (advert to t) (count j))))

-- What the first four bytes of a message say, and the pairs behind them.
packet_of_bytes :
    (to : Node) (ps : List UpdatePair) (k i : ℕ)
    → i < 4 + 2 * k
    → get_or (of_bytes (first_bytes (align4 (6 + 2 * k)) (to_bytes (packet_of to ps k)))).msg i 0
      ≡ get_or (update_buffer ps k) i 0
packet_of_bytes to ps k i h =
    get_or-msg (packet_of to ps k) (align4 (6 + 2 * k)) i (ground arith)
    ∙ get_or-first_bytes (4 + 2 * k) i (update_buffer ps k) h

announced_buffer :
    (mip ttl : ℕ) (ps : List UpdatePair)
    → announced (record { mip = mip; ttl = ttl; msg = update_buffer ps (length ps) }) ≡ ps
unfolding update_buffer
announced_buffer mip ttl ps = pairs_of-pair_bytes ps

-- The bytes that are written to the own MIP daemon as the update for a neighbour, over a table of at
-- most 123 nodes, are read there as an "UPD" packet which names the neighbour and announces, with
-- the count in front, every entry but the neighbour's, with `MAX_DISTANCE` for what is routed
-- through it. This is the sending host's side alone.
pub update_for_lem :
    (to : Node) (t : RoutingList)
    → length t ≤ 123
    → let packet = of_bytes (update_for to t) in
      (packet.mip ≡ to.mip)
      × (starts_with3 packet.msg b'U' b'P' b'D' ≡ true)
      × (get_or packet.msg 3 0 ≡ length (advert to t))
      × (announced packet ≡ advert to t)
unfolding update_buffer
update_for_lem to t h =
    let ps = advert to t in
    let k : ℕ = length ps in
    let at = packet_of_bytes to ps k in
    let raw = of_bytes (first_bytes (align4 (6 + 2 * k)) (to_bytes (packet_of to ps k))) in
    let at0 : get_or raw.msg 0 0 ≡ b'U' = at 0 (omega arith) in
    let at1 : get_or raw.msg 1 0 ≡ b'P' = at 1 (omega arith) in
    let at2 : get_or raw.msg 2 0 ≡ b'D' = at 2 (omega arith) in
    let at3 : get_or raw.msg 3 0 ≡ k = at 3 (omega arith) in
    rw (update_for-eq to t k refl h) (
      mip-of_bytes (packet_of to ps k) (align4 (6 + 2 * k)) (ground arith),
      rw (at0, at1, at2),
      at3,
      announced_agree raw (record { mip = 0; ttl = 0; msg = update_buffer ps k }) k at3 at
          ∙ announced_buffer 0 0 ps,
    )
