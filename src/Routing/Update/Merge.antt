-- ===== src/Routing/Update/Merge.antt =====
-- `update_routing_list`: what a pair of an update does to the entries of the table.
use in_lib.Base.{
  ℕ, ◌≢◌, ◌≤◌, ◌-◌, ◌&&◌, ltb, All, ◌+◌, ◌%◌, ◌≡◌, refl, inl, inr, true, false, [], ◌∷◌, Option,
  none, some, ◌==◌, if◌then◌else◌, Option-cases, arith,
}
use in_lib.Routing.Table.{Node, RoutingList, mips, routes, add_to_linked_list}
use in_lib.Routing.Table.Entry.{entry, entry-append}
use in_lib.Routing.Update.{UpdatePair, improve, scan, apply_pair}

pub scan-none :
    (s : ℕ) (p : UpdatePair) (t : RoutingList)
    → entry p.mip_target t ≡ none
    → ((scan s p t).known ≡ false) × ((scan s p t).list ≡ t)
unfolding scan entry
scan-none s p [] e = (refl, refl)
scan-none s p (n ∷ rest) e = ground (arith, scan-none s p rest)

pub scan-some :
    (s : ℕ) (p : UpdatePair) (t : RoutingList) (n : Node)
    → entry p.mip_target t ≡ some n
    → (scan s p t).known ≡ true
unfolding scan entry
scan-some s p [] n e = cc
scan-some s p (m ∷ rest) n e = ground (arith, scan-some s p rest n)

abbrev improved_entry : ℕ → UpdatePair → Option Node → Option Node
unfolding improve
improved_entry s p none = none
improved_entry s p (some n) = some (improve s p n).0

mip-improve :
    (s : ℕ) (p : UpdatePair) (n : Node)
    → ((improve s p n).0.mip ≡ n.mip) × ((improve s p n).0.next_mip ≡ n.next_mip)
unfolding improve
mip-improve s p n = ground arith

entry-scan :
    (j s : ℕ) (p : UpdatePair) (t : RoutingList)
    → entry j (scan s p t).list
      ≡ (if j == p.mip_target then improved_entry s p (entry j t) else entry j t)
unfolding scan entry
entry-scan j s p [] = ground arith
entry-scan j s p (n ∷ rest) = ground (arith, entry-scan j s p rest, mip-improve s p n)

pub routes-scan : (s : ℕ) (p : UpdatePair) (t : RoutingList) → routes (scan s p t).list ≡ routes t
unfolding scan
routes-scan s p [] = refl
routes-scan s p (n ∷ rest) = ground (arith, routes-scan s p rest, mip-improve s p n)

pub mips-scan : (s : ℕ) (p : UpdatePair) (t : RoutingList) → mips (scan s p t).list ≡ mips t
unfolding scan
mips-scan s p [] = refl
mips-scan s p (n ∷ rest) = ground (arith, mips-scan s p rest, mip-improve s p n)

-- The distance of a known entry: lost where its own next hop says so, and otherwise the smaller one
-- of its own and of the way through the sender.
abbrev pub merged_distance : ℕ → UpdatePair → Node → ℕ
merged_distance s p n =
    if (n.next_mip == s) && (p.distance == 255)
    then 255
    else if ltb p.distance (n.distance - 1)
    then p.distance + 1
    else n.distance

-- The entry that a pair leaves for its target.
abbrev pub merged : ℕ → ℕ → UpdatePair → Option Node → Node
merged s now p none = record {
  mip = p.mip_target;
  distance = if p.distance == 255 then 0 else p.distance + 1;
  next_mip = s;
  last_rcv = now;
}
merged s now p (some n) = record n { distance = merged_distance s p n }

improve-merged :
    (s now : ℕ) (p : UpdatePair) (n : Node)
    → n.distance ≤ 255
    → (improve s p n).0 ≡ merged s now p (some n)
unfolding improve
improve-merged s now p n small = ground arith

entry-byte :
    (j : ℕ) (t : RoutingList) (n : Node)
    → All (λ m. m.distance ≤ 255) t
    → entry j t ≡ some n
    → n.distance ≤ 255
unfolding entry
entry-byte j [] n h e = absurd (cc)
entry-byte j (m ∷ rest) n h e = ground (arith, entry-byte j rest n h.1)

-- A pair with an 8-bit distance, merged into a table with 8-bit distances, changes the entry of its
-- target only. An unknown target becomes an entry through the sender, one step further than
-- announced, or at distance 0 if the pair says `MAX_DISTANCE`. A known one keeps its next hop; it
-- becomes unreachable if its own next hop announces that, and otherwise has the smaller one of its
-- distance and of the announced distance plus one.
pub entry-apply_pair :
    (j s now : ℕ) (p : UpdatePair) (t : RoutingList)
    → p.distance ≤ 255
    → All (λ n. n.distance ≤ 255) t
    → entry j (apply_pair s now p t).0
      ≡ (if j == p.mip_target then some (merged s now p (entry j t)) else entry j t)
unfolding apply_pair add_to_linked_list entry
entry-apply_pair j s now p t small bytes = elim (Option-cases (entry p.mip_target t)) [
  | inl e ↦ ground (arith, scan-none s p t e, entry-append j t (merged s now p none ∷ []))
  | inr (n, e) ↦ ground (
    arith,
    scan-some s p t n e,
    entry-scan j s p t,
    improve-merged s now p n (entry-byte p.mip_target t n bytes e),
  )
]

-- What has an entry keeps one.
pub known-apply_pair :
    (j s now : ℕ) (p : UpdatePair) (t : RoutingList)
    → entry j t ≢ none
    → entry j (apply_pair s now p t).0 ≢ none
unfolding apply_pair add_to_linked_list entry improved_entry
known-apply_pair j s now p t known = elim (Option-cases (entry j t)) [
  | inl absent ↦ absurd (known absent)
  | inr (m, e) ↦ elim (Option-cases (entry p.mip_target t)) [
    | inl new ↦ ground (
      arith,
      scan-none s p t new,
      entry-append j t (
          record {
            mip = p.mip_target;
            distance = (p.distance + 1) % 256;
            next_mip = s;
            last_rcv = now;
          }
          ∷ []),
    )
    | inr (n, old) ↦ ground (arith, scan-some s p t n old, entry-scan j s p t)
  ]
]
