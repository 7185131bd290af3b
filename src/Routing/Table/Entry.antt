-- ===== src/Routing/Table/Entry.antt =====
-- The table as a map from addresses to nodes: the first node of an address.
use in_lib.Base.{
  ℕ, ◌≡◌, refl, ◌≢◌, inl, inr, [], ◌∷◌, ◌++◌, Option, none, some, ◌==◌, if◌then◌else◌, Bool-cases,
  All, Distinct, arith,
}
use in_lib.Routing.Table.{Node, RoutingList, max_distance, lookup, mips}

unfoldable pub entry : ℕ → RoutingList → Option Node
entry mip [] = none
entry mip (n ∷ rest) = let later = entry mip rest in if n.mip == mip then some n else later

abbrev pub or_else : Option Node → Option Node → Option Node
or_else none o = o
or_else (some n) o = some n

pub entry-append : (j : ℕ) (t u : RoutingList) → entry j (t ++ u) ≡ or_else (entry j t) (entry j u)
unfolding entry
entry-append j [] u = refl
entry-append j (n ∷ rest) u = ground (arith, entry-append j rest u)

pub entry-none : (j : ℕ) (t : RoutingList) → entry j t ≡ none → All (λ m. m ≢ j) (mips t)
unfolding entry
entry-none j [] e = tt
entry-none j (n ∷ rest) e = ground (arith, entry-none j rest)

none-entry : (j : ℕ) (t : RoutingList) → All (λ m. j ≢ m) (mips t) → entry j t ≡ none
unfolding entry
none-entry j [] h = refl
none-entry j (n ∷ rest) h = ground (arith, none-entry j rest h.1)

lookup-none : (j : ℕ) (t : RoutingList) → All (λ m. j ≢ m) (mips t) → lookup j t ≡ 255
unfolding lookup
lookup-none j [] h = refl
lookup-none j (n ∷ rest) h = ground (arith, lookup-none j rest h.1)

-- The next hop that a table entry gives.
abbrev pub hop_of : Option Node → ℕ
hop_of none = 255
hop_of (some n) = if n.distance == max_distance then 255 else n.next_mip

pub lookup-eq-hop_of :
    (j : ℕ) (t : RoutingList) → Distinct (mips t) → lookup j t ≡ hop_of (entry j t)
unfolding lookup entry
lookup-eq-hop_of j [] d = refl
lookup-eq-hop_of j (n ∷ rest) d = elim (Bool-cases (n.mip == j)) [
  | inl e ↦ ground (arith, lookup-none n.mip rest d.0, none-entry n.mip rest d.0)
  | inr e ↦ ground (arith, lookup-eq-hop_of j rest d.1)
]
