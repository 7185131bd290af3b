-- ===== src/Routing/Update/Sound.antt =====
-- `update_routing_list` as a whole: it returns, keeps one entry for each address and all next
-- hops, and leaves no route through an unreachable node.
use in_lib.Base.{
  ℕ, zero, suc, ◌+◌, ◌%◌, ◌≤◌, ◌≡◌, refl, sym, ap, ◌∙◌, subst, ◌≢◌, inl, inr, Bool, false, ◌||◌,
  List, [], ◌∷◌, ◌++◌, map, map-append, append-nil, append_assoc, Option-cases, length,
  length-append, All, All-append, All-mono, All-prefix, Distinct, Distinct-snoc, get_or, drop, ret,
  ◌>>=◌, arith,
}
use in_lib.Packet.{UnixPacket, max_nodes}
use in_lib.Routing.Table.{RoutingList, mips, routes, add_to_linked_list}
use in_lib.Routing.Table.Entry.{entry, entry-none}
use in_lib.Routing.Broken.Settled.{Settled, kept, reachable-le-length, update_broken_paths_lem}
use in_lib.Routing.Update.{
  UpdatePair, pairs_of, scan, apply_pair, apply_pairs, announced, update_routing_list,
}
use in_lib.Routing.Update.Merge.{scan-none, scan-some, routes-scan, mips-scan}

-- The new routes of an update: all through its sender, none to an address known before.
abbrev pub Extends : ℕ → RoutingList → List (ℕ × ℕ) → Type 0
Extends sender t extra = All (λ (r : ℕ × ℕ). (r.1 ≡ sender) × All (λ m. m ≢ r.0) (mips t)) extra

abbrev mips_of : List (ℕ × ℕ) → List ℕ
mips_of = map (λ (r : ℕ × ℕ). r.0)

mips-routes : (t : RoutingList) → mips t ≡ mips_of (routes t)
mips-routes [] = refl
mips-routes (n ∷ rest) = ap (◌∷◌ n.mip) (mips-routes rest)

mips_of_routes : (t u : RoutingList) → routes t ≡ routes u → mips t ≡ mips u
mips_of_routes t u e = mips-routes t ∙ ap mips_of e ∙ sym (mips-routes u)

routes-kept : (t : RoutingList) → routes t ≡ map (λ (k : ℕ × ℕ × ℕ). (k.0, k.1)) (kept t)
routes-kept [] = refl
routes-kept (n ∷ rest) = ap (◌∷◌ (n.mip, n.next_mip)) (routes-kept rest)

routes_of_kept : (t u : RoutingList) → kept t ≡ kept u → routes t ≡ routes u
routes_of_kept t u e =
    routes-kept t ∙ ap (map (λ (k : ℕ × ℕ × ℕ). (k.0, k.1))) e ∙ sym (routes-kept u)

abbrev Grown : ℕ → RoutingList → RoutingList → Type 0
Grown sender t u = (extra : List (ℕ × ℕ)) × (routes u ≡ routes t ++ extra) × Extends sender t extra

apply_pair-Grown :
    (s now : ℕ) (p : UpdatePair) (t : RoutingList) → Grown s t (apply_pair s now p t).0
unfolding apply_pair add_to_linked_list
apply_pair-Grown s now p t = elim (Option-cases (entry p.mip_target t)) [
  | inl e ↦ (
    (p.mip_target, s) ∷ [],
    rw ((scan-none s p t e).0, (scan-none s p t e).1, apply_pair, map-append) refl,
    ((refl, entry-none p.mip_target t e), tt),
  )
  | inr (n, e) ↦ ([], rw (scan-some s p t n e, apply_pair, routes-scan, append-nil) refl, tt)
]

pub apply_pair-Distinct :
    (s now : ℕ) (p : UpdatePair) (t : RoutingList)
    → Distinct (mips t)
    → Distinct (mips (apply_pair s now p t).0)
unfolding apply_pair add_to_linked_list
apply_pair-Distinct s now p t d = elim (Option-cases (entry p.mip_target t)) [
  | inl e ↦
      rw ((scan-none s p t e).0, (scan-none s p t e).1, apply_pair, map-append)
        (Distinct-snoc (mips t) p.mip_target d (entry-none p.mip_target t e))
  | inr (n, e) ↦ rw (scan-some s p t n e, apply_pair, mips-scan) d
]

pub apply_pairs-Distinct :
    (s now : ℕ) (ps : List UpdatePair) (t : RoutingList)
    → Distinct (mips t)
    → Distinct (mips (apply_pairs s now ps t).0)
unfolding apply_pairs
apply_pairs-Distinct s now [] t d = d
apply_pairs-Distinct s now (p ∷ ps) t d =
    apply_pairs-Distinct s now ps (apply_pair s now p t).0 (apply_pair-Distinct s now p t d)

mips-Grown :
    (t u : RoutingList) (extra : List (ℕ × ℕ))
    → routes u ≡ routes t ++ extra
    → mips u ≡ mips t ++ mips_of extra
mips-Grown t u extra e = mips-routes u ∙ ap mips_of e ∙ rw (map-append, ← mips-routes t) refl

Extends-back :
    (s : ℕ) (t u : RoutingList) (extra more : List (ℕ × ℕ))
    → routes u ≡ routes t ++ extra
    → Extends s u more
    → Extends s t more
Extends-back s t u extra more e = All-mono _ _ more λ r h. (
  h.0,
  All-prefix (λ m. m ≢ r.0) (mips t) (mips_of extra)
      (subst (All (λ m. m ≢ r.0)) (mips-Grown t u extra e) h.1),
)

Grown-trans : (s : ℕ) (t u v : RoutingList) → Grown s t u → Grown s u v → Grown s t v
Grown-trans s t u v (extra, e, new) (more, e', new') = (
  extra ++ more,
  e' ∙ ap (λ x. x ++ more) e ∙ append_assoc (routes t) extra more,
  All-append _ extra more new (Extends-back s t u extra more e new'),
)

apply_pairs-Grown :
    (s now : ℕ) (ps : List UpdatePair) (t : RoutingList) → Grown s t (apply_pairs s now ps t).0
unfolding apply_pairs
apply_pairs-Grown s now [] t = ([], sym (append-nil (routes t)), tt)
apply_pairs-Grown s now (p ∷ ps) t =
    Grown-trans s t (apply_pair s now p t).0 _ (apply_pair-Grown s now p t)
      (apply_pairs-Grown s now ps (apply_pair s now p t).0)

length-scan : (s : ℕ) (p : UpdatePair) (t : RoutingList) → length (scan s p t).list ≡ length t
unfolding scan
length-scan s p [] = refl
length-scan s p (n ∷ rest) = ground (arith, length-scan s p rest)

length-apply_pairs :
    (s now : ℕ) (ps : List UpdatePair) (t : RoutingList)
    → length (apply_pairs s now ps t).0 ≤ length t + length ps
unfolding apply_pairs apply_pair add_to_linked_list
length-apply_pairs s now [] t = omega arith
length-apply_pairs s now (p ∷ ps) t = ground (
  arith,
  length-scan s p t,
  length-append (scan s p t).list (
      (record {
        mip = p.mip_target;
        distance = (p.distance + 1) % 256;
        next_mip = s;
        last_rcv = now;
      })
      ∷ []),
  length-apply_pairs s now ps (apply_pair s now p t).0,
)

scan_unchanged :
    (s : ℕ) (p : UpdatePair) (t : RoutingList) → (scan s p t).change ≡ false → (scan s p t).list ≡ t
unfolding scan
scan_unchanged s p [] e = refl
scan_unchanged s p (n ∷ rest) e = ground (arith, scan_unchanged s p rest)

apply_pairs_unchanged :
    (s now : ℕ) (ps : List UpdatePair) (t : RoutingList)
    → (apply_pairs s now ps t).1 ≡ false
    → (apply_pairs s now ps t).0 ≡ t
unfolding apply_pairs apply_pair
apply_pairs_unchanged s now [] t e = refl
apply_pairs_unchanged s now (p ∷ ps) t e =
    ground (arith, scan_unchanged s p t, apply_pairs_unchanged s now ps (apply_pair s now p t).0)

pub length-pairs_of : (k : ℕ) (bytes : List ℕ) → length (pairs_of k bytes) ≡ k
unfolding pairs_of
length-pairs_of zero bytes = refl
length-pairs_of (suc k) bytes = ap suc (length-pairs_of k (drop 2 bytes))

-- What an update leaves, from the table `t` and through the neighbour `sender`.
pub record Updates (sender : ℕ) (t t' : RoutingList) (change : Bool) : Type 0 where
  pub settled : Settled t'
  pub distinct : Distinct (mips t')
  pub grown : (extra : List (ℕ × ℕ)) × (routes t' ≡ routes t ++ extra) × Extends sender t extra
  pub unchanged : change ≡ false → t' ≡ t

-- Into a table with one entry for each address, which with the announced pairs fits in
-- `MAX_NODES`, an update is merged without leaving an array, and its loop ends. The new table has
-- one entry for each address and no route through an unreachable node. Every entry that was there
-- keeps its address and its next hop, so that a shorter way through the sender is never taken; new
-- entries go through the sender and are of addresses not known before. If no change is reported
-- the table is as it was.
pub update_routing_list_lem :
    (packet : UnixPacket) (now : ℕ) (t : RoutingList)
    → Distinct (mips t)
    → length t + get_or packet.msg 3 0 ≤ max_nodes
    → (t' : RoutingList) × (change : Bool) × (update_routing_list packet now t ≡ ret (t', change))
      × Updates packet.mip t t' change
unfolding update_routing_list
update_routing_list_lem packet now t d h =
    let ps = announced packet in
    let m = apply_pairs packet.mip now ps t in
    let (t', change, e, repairs) =
      update_broken_paths_lem (suc (length m.0)) m.0 (omega (arith, reachable-le-length m.0)) (
        omega (
          arith,
          length-apply_pairs packet.mip now ps t,
          length-pairs_of (get_or packet.msg 3 0) (drop 4 packet.msg),
        )) in
    let keeps = routes_of_kept t' m.0 repairs.keeps in
    let (extra, r, new) = apply_pairs-Grown packet.mip now ps t in
    (
      t',
      m.1 || change,
      ap (λ r. r >>= λ q. ret (q.0, m.1 || q.1)) e,
      record {
        settled = repairs.settled;
        distinct =
            subst Distinct (mips_of_routes m.0 t' (sym keeps))
              (apply_pairs-Distinct packet.mip now ps t d);
        grown = (extra, keeps ∙ r, new);
        unchanged = λ c.
            repairs.unchanged (ground arith)
            ∙ apply_pairs_unchanged packet.mip now ps t (ground arith);
      },
    )

pub mips_of_kept : (t u : RoutingList) → kept t ≡ kept u → mips t ≡ mips u
mips_of_kept t u e = mips_of_routes t u (routes_of_kept t u e)
