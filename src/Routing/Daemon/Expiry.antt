-- ===== src/Routing/Daemon/Expiry.antt =====
-- `identify_broken_path`: which neighbours it gives up, and what `lookup` says then.
use in_lib.Base.{
  ℕ, ◌+◌, ◌≡◌, refl, sym, ap, ◌∙◌, Bool, false, ◌&&◌, [], ◌∷◌, ◌++◌, map, append-nil, append_assoc,
  some, ltb, ◌==◌, if◌then◌else◌, All, Distinct, arith,
}
use in_lib.Base.{if◌then◌else◌, ◌==◌}
use in_lib.Routing.Table.{Node, RoutingList, max_distance, mips, lookup}
use in_lib.Routing.Table.Entry.{entry, hop_of, lookup-eq-hop_of}
use in_lib.Routing.Daemon.{expire_from, identify_broken_path}

-- A neighbour not heard of for more than twelve seconds.
abbrev pub is_silent : ℕ → Node → Bool
is_silent now n = (n.distance == 1) && ltb (n.last_rcv + 12) now

abbrev pub aged : ℕ → Node → Node
aged now n = if is_silent now n then record n { distance = max_distance } else n

pub expire_from-map :
    (now : ℕ) (before t : RoutingList) → (expire_from now before t).0 ≡ before ++ map (aged now) t
unfolding expire_from
expire_from-map now before [] = sym (append-nil before)
expire_from-map now before (n ∷ rest) =
    expire_from-map now (before ++ (aged now n ∷ [])) rest
    ∙ append_assoc before (aged now n ∷ []) (map (aged now) rest)

expire_from_quiet :
    (now : ℕ) (before t : RoutingList)
    → All (λ n. is_silent now n ≡ false) t
    → expire_from now before t ≡ (before ++ t, [])
unfolding expire_from
expire_from_quiet now before [] h = ap (λ l. (l, [])) (sym (append-nil before))
expire_from_quiet now before (n ∷ rest) h =
    ground (
      arith,
      expire_from_quiet now (before ++ (n ∷ [])) rest h.1,
      append_assoc before (n ∷ []) rest,
    )

mips-aged : (now : ℕ) (t : RoutingList) → mips (map (aged now) t) ≡ mips t
mips-aged now [] = refl
mips-aged now (n ∷ rest) = ground (arith, mips-aged now rest)

pub mips-identify_broken_path :
    (now : ℕ) (t : RoutingList) → mips (identify_broken_path now t).0 ≡ mips t
unfolding identify_broken_path
mips-identify_broken_path now t = ap mips (expire_from-map now [] t) ∙ mips-aged now t

lookup-aged :
    (now j : ℕ) (n : Node) (t : RoutingList)
    → entry j t ≡ some n
    → entry j (map (aged now) t) ≡ some (aged now n)
unfolding entry
lookup-aged now j n [] e = cc
lookup-aged now j n (m ∷ rest) e = ground (arith, lookup-aged now j n rest)

-- In a table with one entry for each address, the check for silent neighbours makes those
-- unreachable that were heard of more than twelve seconds ago. Every other target that has an
-- entry keeps its next hop, also one that is routed through such a neighbour.
pub identify_broken_path_lem :
    (now j : ℕ) (n : Node) (t : RoutingList)
    → Distinct (mips t)
    → entry j t ≡ some n
    → ((identify_broken_path now t).0 ≡ map (aged now) t)
      × (lookup j (identify_broken_path now t).0 ≡ (if is_silent now n then 255 else lookup j t))
unfolding identify_broken_path
identify_broken_path_lem now j n t d e = (
  expire_from-map now [] t,
  rw (expire_from-map now [] t) (
      lookup-eq-hop_of j (map (aged now) t) (rw mips-aged d)
      ∙ ap hop_of (lookup-aged now j n t e)
      ∙ ground (arith, lookup-eq-hop_of j t d)),
)

-- Where no neighbour is silent, the check sends nothing and leaves the table as it is.
pub identify_broken_path_quiet :
    (now : ℕ) (t : RoutingList)
    → All (λ m. is_silent now m ≡ false) t
    → identify_broken_path now t ≡ (t, [])
unfolding identify_broken_path
identify_broken_path_quiet now t h = expire_from_quiet now [] t h
