-- ===== src/Routing/Table/Hello.antt =====
-- `handle_hello`: what a hello does to the table.
use in_lib.Base.{
  ℕ, ◌≡◌, refl, inl, inr, Bool, true, false, not, [], ◌∷◌, Option, none, some, ◌==◌, if◌then◌else◌,
  Option-cases, map-append, Distinct, Distinct-snoc, arith,
}
use in_lib.Routing.Table.{Node, RoutingList, hear, handle_hello, mips}
use in_lib.Routing.Table.Entry.{entry, entry-append, entry-none}

-- A neighbour's node after its hello.
abbrev pub refreshed : ℕ → ℕ → Option Node → Node
refreshed mip now none = record { mip = mip; distance = 1; next_mip = mip; last_rcv = now }
refreshed mip now (some n) = record n { distance = 1; last_rcv = now }

-- Whether that differs from what the table said of its distance.
abbrev pub is_news : Option Node → Bool
is_news none = true
is_news (some n) = not (n.distance == 1)

abbrev heard_entry : ℕ → Option Node → Option Node
heard_entry now none = none
heard_entry now (some n) = some (record n { distance = 1; last_rcv = now })

hear-none : (mip now : ℕ) (t : RoutingList) → entry mip t ≡ none → (hear mip now t).found ≡ false
unfolding hear entry
hear-none mip now [] e = refl
hear-none mip now (n ∷ rest) e = ground (arith, hear-none mip now rest)

hear-some :
    (mip now : ℕ) (t : RoutingList) (n : Node)
    → entry mip t ≡ some n
    → ((hear mip now t).found ≡ true) × ((hear mip now t).changed ≡ not (n.distance == 1))
unfolding hear entry
hear-some mip now [] n e = cc
hear-some mip now (m ∷ rest) n e = ground (arith, hear-some mip now rest n)

entry-hear :
    (j mip now : ℕ) (t : RoutingList)
    → entry j (hear mip now t).list
      ≡ (if j == mip then heard_entry now (entry mip t) else entry j t)
unfolding hear entry
entry-hear j mip now [] = ground arith
entry-hear j mip now (n ∷ rest) = ground (arith, entry-hear j mip now rest)

mips-hear : (mip now : ℕ) (t : RoutingList) → mips (hear mip now t).list ≡ mips t
unfolding hear
mips-hear mip now [] = refl
mips-hear mip now (n ∷ rest) = ground (arith, mips-hear mip now rest)

-- A hello makes its sender an entry at distance 1 that was heard now, and leaves the entries of
-- all other addresses. A sender that was known keeps its next hop; a new one is its own next hop.
-- The result says whether the sender was new or stood at another distance.
pub handle_hello_lem :
    (mip now j : ℕ) (t : RoutingList)
    → (entry j (handle_hello mip now t).0
        ≡ (if j == mip then some (refreshed mip now (entry mip t)) else entry j t))
      × ((handle_hello mip now t).1 ≡ is_news (entry mip t))
unfolding handle_hello entry
handle_hello_lem mip now j t = elim (Option-cases (entry mip t)) [
  | inl e ↦ ground (arith, hear-none mip now t e, entry-append j t (refreshed mip now none ∷ []))
  | inr (n, e) ↦ ground (arith, hear-some mip now t n e, entry-hear j mip now t)
]

-- No hello gives an address a second entry.
pub handle_hello-Distinct :
    (mip now : ℕ) (t : RoutingList) → Distinct (mips t) → Distinct (mips (handle_hello mip now t).0)
unfolding handle_hello
handle_hello-Distinct mip now t d = elim (Option-cases (entry mip t)) [
  | inl e ↦
      rw (hear-none mip now t e, handle_hello, map-append)
        (Distinct-snoc (mips t) mip d (entry-none mip t e))
  | inr (n, e) ↦ rw ((hear-some mip now t n e).0, handle_hello, mips-hear) d
]
