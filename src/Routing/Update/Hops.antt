-- ===== src/Routing/Update/Hops.antt =====
-- `lookup` after `update_routing_list`: which next hops the table gives out.
use in_lib.Base.{
  ℕ, ◌+◌, true, ◌||◌, ◌>>=◌, length-append, ◌≤◌, ◌≡◌, refl, sym, ap, ◌∙◌, subst, ◌≢◌, ◌⊎◌, inl, inr,
  Bool, List, [], ◌∷◌, ◌++◌, none, some, ◌==◌, Bool-cases, length, All, Distinct, get_or, get_elem?,
  zero, suc, All-get_elem?, ret, arith,
}
use in_lib.Packet.{UnixPacket, max_nodes}
use in_lib.Routing.Table.{Node, RoutingList, max_distance, mips, routes, lookup, add_to_linked_list}
use in_lib.Routing.Table.Entry.{entry, entry-append, or_else, hop_of, lookup-eq-hop_of}
use in_lib.Routing.Broken.{update_broken_paths}
use in_lib.Routing.Broken.Exact.{IsLost, is_max, via, update_broken_paths_exact}
use in_lib.Routing.Broken.Settled.{Settled, Avoids, reachable-le-length, update_broken_paths_lem}
use in_lib.Routing.Update.{announced, apply_pair, apply_pairs, update_routing_list}
use in_lib.Routing.Update.Merge.{scan-none}
use in_lib.Routing.Update.Sound.{apply_pairs-Distinct, mips_of_kept, update_routing_list_lem}

entry_at :
    (t : RoutingList) (i : ℕ) (n : Node)
    → Distinct (mips t)
    → get_elem? t i ≡ some n
    → entry n.mip t ≡ some n
unfolding entry
entry_at [] i n d e = absurd (cc)
entry_at (m ∷ rest) zero n d e = ground arith
entry_at (m ∷ rest) (suc i) n d e =
    let there : m.mip ≢ n.mip = All-get_elem? _ rest i n (All-mips _ rest d.0) e in
    let later = entry_at rest i n d.1 e in ground (arith, there, later)
  where
    All-mips : (P : ℕ → Type 0) (u : RoutingList) → All P (mips u) → All (λ k. P k.mip) u
    All-mips P [] h = tt
    All-mips P (k ∷ u) h = (h.0, All-mips P u h.1)

-- A reachable node whose next hop is a neighbour `s` that is reached directly is not lost.
not-IsLost :
    (t : RoutingList) (s : ℕ) (n m : Node)
    → Distinct (mips t)
    → entry s t ≡ some n
    → n.distance ≢ max_distance
    → n.next_mip ≡ s
    → m.distance ≢ max_distance
    → m.next_mip ≡ s
    → ¬ IsLost t m
not-IsLost t s n m d e finite direct finite' hop (is_max lost) = finite' lost
not-IsLost t s n m d e finite direct finite' hop (via i k at lost same) =
    let there : entry k.mip t ≡ some k = entry_at t i k d at in
    let k_is_n : k ≡ n = ground (arith, there, e, same, hop) in
    not-IsLost t s n k d e finite direct
      (subst (λ x. x.distance ≢ max_distance) (sym k_is_n) finite)
      (ap (λ x. x.next_mip) k_is_n ∙ direct) lost

hop_kept :
    (j : ℕ) (n : Node) (t t' : RoutingList) (extra : List (ℕ × ℕ))
    → routes t' ≡ routes t ++ extra
    → entry j t ≡ some n
    → (n' : Node) × (entry j t' ≡ some n') × (n'.next_mip ≡ n.next_mip)
unfolding entry
hop_kept j n [] t' extra r e = absurd (cc)
hop_kept j n (m ∷ rest) [] extra r e = absurd (cc)
hop_kept j n (m ∷ rest) (m' ∷ rest') extra r e = elim (Bool-cases (m.mip == j)) [
  | inl hit ↦ (m', ground arith, ground arith)
  | inr miss ↦
      let (n', e', h) = hop_kept j n rest rest' extra (ground arith) (ground arith) in
      (n', ground arith, h)
]

-- After an update to a table with one entry for each address, where both fit in `MAX_NODES`, a
-- target that had an entry is looked up to the next hop of that entry, or to none, whatever was
-- announced and by whom.
pub lookup-update_keeps_hop :
    (packet : UnixPacket) (now j : ℕ) (n : Node) (t t' : RoutingList) (change : Bool)
    → Distinct (mips t)
    → length t + get_or packet.msg 3 0 ≤ max_nodes
    → entry j t ≡ some n
    → update_routing_list packet now t ≡ ret (t', change)
    → (lookup j t' ≡ n.next_mip) ⊎ (lookup j t' ≡ 255)
lookup-update_keeps_hop packet now j n t t' change d h e u =
    let (t'', change', u', updates) = update_routing_list_lem packet now t d h in
    let same : t'' ≡ t' = cc in
    let (extra, r, new) = updates.grown in
    let (n', e', hop) = hop_kept j n t t' extra (ap routes (sym same) ∙ r) e in
    let d' : Distinct (mips t') = subst (λ x. Distinct (mips x)) same updates.distinct in
    ground (arith, lookup-eq-hop_of j t' d')

lookup-Avoids : (b j : ℕ) (t : RoutingList) → All (Avoids b) t → lookup j t ≢ 255 → b ≢ lookup j t
unfolding lookup
lookup-Avoids b j [] a h = absurd (h refl)
lookup-Avoids b j (n ∷ rest) a h = ground (arith, lookup-Avoids b j rest a.1)

All-Settled :
    (j : ℕ) (t u : RoutingList)
    → lookup j t ≢ 255
    → All (λ m. m.distance ≡ max_distance → All (Avoids m.mip) t) u
    → All (λ m. m.distance ≡ max_distance → m.mip ≢ lookup j t) u
All-Settled j t [] h s = tt
All-Settled j t (m ∷ rest) h s =
    (λ e. lookup-Avoids m.mip j t (s.0 e) h, All-Settled j t rest h s.1)

-- After an update to a table with one entry for each address, where both fit in `MAX_NODES`, no
-- target is looked up to a neighbour that is itself unreachable.
pub lookup-update_reachable_hop :
    (packet : UnixPacket) (now j : ℕ) (t t' : RoutingList) (change : Bool)
    → Distinct (mips t)
    → length t + get_or packet.msg 3 0 ≤ max_nodes
    → update_routing_list packet now t ≡ ret (t', change)
    → lookup j t' ≢ 255
    → All (λ m. m.distance ≡ max_distance → m.mip ≢ lookup j t') t'
lookup-update_reachable_hop packet now j t t' change d h u l =
    let (t'', change', u', updates) = update_routing_list_lem packet now t d h in
    let same : t'' ≡ t' = cc in All-Settled j t' t' l (subst Settled same updates.settled)

get_elem?-last : (t : RoutingList) (n : Node) → get_elem? (t ++ n ∷ []) (length t) ≡ some n
get_elem?-last [] n = refl
get_elem?-last (m ∷ t) n = get_elem?-last t n

-- The node of a target that was announced with `MAX_DISTANCE`: the sum is 256, and becomes 0.
abbrev wrapped : ℕ → ℕ → ℕ → Node
wrapped j s now = record { mip = j; distance = 0; next_mip = s; last_rcv = now }

apply_pairs-wrapped :
    (j s now : ℕ) (t : RoutingList)
    → entry j t ≡ none
    → apply_pairs s now (record { mip_target = j; distance = max_distance } ∷ []) t
      ≡ (t ++ wrapped j s now ∷ [], true)
unfolding apply_pairs apply_pair add_to_linked_list
apply_pairs-wrapped j s now t e =
    rw
      (
        (scan-none s (record { mip_target = j; distance = max_distance }) t e).0,
        (scan-none s (record { mip_target = j; distance = max_distance }) t e).1,
        apply_pairs,
        apply_pair,
      )
      refl

-- What repair leaves of the new node behind the reachable neighbour `s`.
wrapped-kept :
    (j s now : ℕ) (n : Node) (t t' : RoutingList) (change : Bool)
    → Distinct (mips (t ++ wrapped j s now ∷ []))
    → length (t ++ wrapped j s now ∷ []) ≤ max_nodes
    → entry s t ≡ some n
    → n.distance ≢ max_distance
    → n.next_mip ≡ s
    → update_broken_paths (suc (length (t ++ wrapped j s now ∷ []))) (t ++ wrapped j s now ∷ [])
      ≡ ret (t', change)
    → get_elem? t' (length t) ≡ some (wrapped j s now)
wrapped-kept j s now n t t' change d h e finite direct u =
    let u1 = t ++ wrapped j s now ∷ [] in
    let (t2, change2, e2, exact) =
      update_broken_paths_exact (suc (length u1)) u1 (omega (arith, reachable-le-length u1)) h in
    let same : t2 ≡ t' = cc in
    let there : entry s u1 ≡ some n =
      entry-append s t (wrapped j s now ∷ [])
      ∙ ap (λ o. or_else o (entry s (wrapped j s now ∷ []))) e in
    let (n', at, what) = exact (length t) (wrapped j s now) (get_elem?-last t _) in
    elim what [
      | inl (_, lost) ↦
          absurd (not-IsLost u1 s n (wrapped j s now) d there finite direct (omega arith) refl lost)
      | inr (kept, _) ↦
          subst (λ x. get_elem? x (length t) ≡ some (wrapped j s now)) same (at ∙ ap some kept)
    ]

-- A neighbour that is in the table as reached directly announces one target, unknown so far, as
-- unreachable, and `MAX_NODES` is not exceeded. The target was looked up to no next hop. The update
-- is a change, and in the table that it leaves, after the repair of broken paths, the target is
-- looked up to that neighbour.
pub unreachable_becomes_route :
    (packet : UnixPacket) (now j : ℕ) (n : Node) (t : RoutingList)
    → Distinct (mips t)
    → length t + 1 ≤ max_nodes
    → announced packet ≡ record { mip_target = j; distance = max_distance } ∷ []
    → entry j t ≡ none
    → entry packet.mip t ≡ some n
    → n.distance ≢ max_distance
    → n.next_mip ≡ packet.mip
    → (lookup j t ≡ 255)
      × (t' : RoutingList) × (update_routing_list packet now t ≡ ret (t', true))
      × (lookup j t' ≡ packet.mip)
unfolding update_routing_list
unreachable_becomes_route packet now j n t d h one e known finite direct =
    let s = packet.mip in
    let u1 = t ++ wrapped j s now ∷ [] in
    let merged : apply_pairs s now (announced packet) t ≡ (u1, true) =
      ap (λ ps. apply_pairs s now ps t) one ∙ apply_pairs-wrapped j s now t e in
    let d1 : Distinct (mips u1) =
      subst (λ (r : RoutingList × Bool). Distinct (mips r.0)) merged
        (apply_pairs-Distinct s now (announced packet) t d) in
    let size : length u1 ≤ max_nodes = omega (arith, length-append t (wrapped j s now ∷ [])) in
    let (t', change, u, repairs) =
      update_broken_paths_lem (suc (length u1)) u1 (omega (arith, reachable-le-length u1)) size in
    let d' : Distinct (mips t') = subst Distinct (mips_of_kept u1 t' (sym repairs.keeps)) d1 in
    let at = wrapped-kept j s now n t t' change d1 size known finite direct u in
    let there : entry j t' ≡ some (wrapped j s now) = entry_at t' (length t) _ d' at in
    (
      lookup-eq-hop_of j t d ∙ ap hop_of e,
      t',
      ap (λ m. update_broken_paths (suc (length m.0)) m.0 >>= λ r. ret (r.0, m.1 || r.1)) merged
          ∙ ap (λ r. r >>= λ q. ret (q.0, true)) u,
      lookup-eq-hop_of j t' d' ∙ ap hop_of there,
    )
