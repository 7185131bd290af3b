-- ===== src/Routing/Broken/Exact.antt =====
-- Which nodes `update_broken_paths` makes unreachable: an independent description.
use in_lib.Base.{
  ℕ, zero, suc, ◌<◌, ◌≤◌, ◌≡◌, refl, sym, ap, ◌∙◌, subst, ◌⊎◌, inl, inr, Bool, not, ◌&&◌, List, [],
  ◌∷◌, some, ltb, ◌==◌, eq_of_==, Bool-cases, length, get_elem?, All, All-from_elems, All-get_elem?,
  ret, Gives, Gives->>=, Gives-ret, arith,
}
use in_lib.Packet.{max_nodes}
use in_lib.Routing.Table.{Node, RoutingList, max_distance}
use in_lib.Routing.Broken.{broken_mips, mark_via, mark_all, update_broken_paths}
use in_lib.Routing.Broken.Settled.{reachable, Settled, update_broken_paths_lem}

abbrev pub unreachable : Node → Node
unreachable n = record n { distance = max_distance }

-- A node of the table is lost: it is unreachable, or a node with its next hop's address is lost.
pub data IsLost (t : RoutingList) : Node → Type 0 where
  is_max : {n : Node} → n.distance ≡ max_distance → IsLost t n
  via :
      {n : Node} (i : ℕ) (m : Node)
      → get_elem? t i ≡ some m
      → IsLost t m
      → m.mip ≡ n.next_mip
      → IsLost t n

-- Node by node: as it was, or one of `P` that was made unreachable.
abbrev Marked : (Node → Type 0) → RoutingList → RoutingList → Type 0
Marked P [] [] = Unit
Marked P [] (n' ∷ t') = ⊥
Marked P (n ∷ t) [] = ⊥
Marked P (n ∷ t) (n' ∷ t') = ((n' ≡ n) ⊎ ((n' ≡ unreachable n) × P n)) × Marked P t t'

Marked-refl : (P : Node → Type 0) (t : RoutingList) → Marked P t t
Marked-refl P [] = tt
Marked-refl P (n ∷ t) = (inl refl, Marked-refl P t)

Marked-trans :
    (P : Node → Type 0) (t u v : RoutingList) → Marked P t u → Marked P u v → Marked P t v
Marked-trans P [] [] [] h k = tt
Marked-trans P [] [] (z ∷ v) h k = k
Marked-trans P [] (y ∷ u) v h k = absurd h
Marked-trans P (x ∷ t) [] v h k = absurd h
Marked-trans P (x ∷ t) (y ∷ u) [] h k = absurd k
Marked-trans P (x ∷ t) (y ∷ u) (z ∷ v) (h, hs) (k, ks) = (both h k, Marked-trans P t u v hs ks)
  where
    both :
        (y ≡ x) ⊎ ((y ≡ unreachable x) × P x)
        → (z ≡ y) ⊎ ((z ≡ unreachable y) × P y)
        → (z ≡ x) ⊎ ((z ≡ unreachable x) × P x)
    both (inl same) (inl same') = inl (same' ∙ same)
    both (inl same) (inr (lost, p)) = inr (lost ∙ ap unreachable same, subst P same p)
    both (inr (lost, p)) (inl same') = inr (same' ∙ lost, p)
    both (inr (lost, p)) (inr (lost', _)) = inr (lost' ∙ ap unreachable lost, p)

-- All nodes behind that address are of `P`.
abbrev Behind : (Node → Type 0) → ℕ → Type 0
Behind P b = (n : Node) → b ≡ n.next_mip → P n

mark_via-Marked :
    (P : Node → Type 0) (b : ℕ) (t : RoutingList) → Behind P b → Marked P t (mark_via b t).0
unfolding mark_via
mark_via-Marked P b [] behind = tt
mark_via-Marked P b (n ∷ rest) behind =
    let later = mark_via-Marked P b rest behind in
    elim (Bool-cases (not (n.distance == max_distance) && (b == n.next_mip))) [
      | inl hit ↦ rw hit (inr (refl, behind n (ground arith)), later)
      | inr miss ↦ rw miss (inl refl, later)
    ]

mark_all-Marked :
    (P : Node → Type 0) (bs : List ℕ) (t : RoutingList)
    → All (Behind P) bs
    → Marked P t (mark_all bs t).0
unfolding mark_all
mark_all-Marked P [] t h = Marked-refl P t
mark_all-Marked P (b ∷ bs) t (h, hs) =
    Marked-trans P t (mark_via b t).0 (mark_all bs (mark_via b t).0).0 (mark_via-Marked P b t h)
      (mark_all-Marked P bs (mark_via b t).0 hs)

-- All nodes behind a node that was made unreachable, or was so before.
broken_mips-Behind :
    (P : Node → Type 0) (t u : RoutingList)
    → Marked P t u
    → All (λ n. n.distance ≡ max_distance → P n) t
    → All (λ n. P n → Behind P n.mip) t
    → All (Behind P) (broken_mips u)
unfolding broken_mips
broken_mips-Behind P [] [] h lost behind = tt
broken_mips-Behind P [] (y ∷ u) h lost behind = absurd h
broken_mips-Behind P (x ∷ t) [] h lost behind = absurd h
broken_mips-Behind P (x ∷ t) (y ∷ u) (h, hs) lost behind =
    let later = broken_mips-Behind P t u hs lost.1 behind.1 in
    elim (Bool-cases (y.distance == max_distance)) [
      | inr finite ↦ rw finite later
      | inl at_max ↦ rw at_max (here h (eq_of_== y.distance max_distance at_max), later)
    ]
  where
    here : (y ≡ x) ⊎ ((y ≡ unreachable x) × P x) → y.distance ≡ max_distance → Behind P y.mip
    here (inl same) e =
        subst (λ z. Behind P z.mip) (sym same)
          (behind.0 (lost.0 (ap (λ z. z.distance) (sym same) ∙ e)))
    here (inr (gone, p)) e = subst (λ z. Behind P z.mip) (sym gone) (behind.0 p)

IsLost-Behind :
    (t u : RoutingList) → Marked (IsLost t) t u → All (Behind (IsLost t)) (broken_mips u)
IsLost-Behind t u h =
    broken_mips-Behind (IsLost t) t u h (All-from_elems _ t (λ i n e. is_max))
      (All-from_elems _ t (λ i m e lost n hop. via i m e lost hop))

update_broken_paths-Marked :
    (t : RoutingList) (fuel : ℕ) (u : RoutingList)
    → Marked (IsLost t) t u
    → Gives (λ r. Marked (IsLost t) t r.0) (update_broken_paths fuel u)
unfolding update_broken_paths
update_broken_paths-Marked t zero u h = tt
update_broken_paths-Marked t (suc fuel) u h =
    let P = IsLost t in
    let marked = mark_all (broken_mips u) u in
    let h' : Marked P t marked.0 =
      Marked-trans P t u marked.0 h (mark_all-Marked P (broken_mips u) u (IsLost-Behind t u h)) in
    elim (Bool-cases (ltb max_nodes (length (broken_mips u)))) [
      | inl over ↦ rw (update_broken_paths, over) tt
      | inr fits ↦ elim (Bool-cases marked.1) [
        | inr same ↦ rw (update_broken_paths, fits, same) h'
        | inl done ↦
            rw (update_broken_paths, fits, done)
              (Gives->>= (λ r. Marked P t r.0) (λ r. Marked P t r.0) _ _
                (update_broken_paths-Marked t fuel marked.0 h') (λ r k. k))
      ]
    ]

Marked-get_elem? :
    (P : Node → Type 0) (t u : RoutingList) (i : ℕ) (n : Node)
    → Marked P t u
    → get_elem? t i ≡ some n
    → (n' : Node) × (get_elem? u i ≡ some n') × ((n' ≡ n) ⊎ ((n' ≡ unreachable n) × P n))
Marked-get_elem? P [] u i n h e = absurd (cc)
Marked-get_elem? P (x ∷ t) [] i n h e = absurd h
Marked-get_elem? P (x ∷ t) (y ∷ u) zero n h e =
    (y, refl, subst (λ z. (y ≡ z) ⊎ ((y ≡ unreachable z) × P z)) (ground arith) h.0)
Marked-get_elem? P (x ∷ t) (y ∷ u) (suc i) n h e = Marked-get_elem? P t u i n h.1 e

abbrev GoneAt : RoutingList → ℕ → Node → Type 0
GoneAt u i n = (n' : Node) × (get_elem? u i ≡ some n') × (n' ≡ unreachable n)

gone_at :
    (t u : RoutingList) (i : ℕ) (n : Node)
    → Marked (IsLost t) t u
    → get_elem? t i ≡ some n
    → ((n' : Node) → get_elem? u i ≡ some n' → n' ≡ n → n.distance ≡ max_distance)
    → GoneAt u i n
gone_at t u i n h e stays =
    let (n', e', image) = Marked-get_elem? (IsLost t) t u i n h e in
    elim image [
      | inr (gone, _) ↦ (n', e', gone)
      | inl same ↦ (n', e', same ∙ ap (λ d. record n { distance = d }) (stays n' e' same))
    ]

lost_is_unreachable :
    (t u : RoutingList)
    → Marked (IsLost t) t u
    → Settled u
    → {n : Node} → IsLost t n
    → (i : ℕ) → get_elem? t i ≡ some n
    → GoneAt u i n
lost_is_unreachable t u h settled (is_max d) i e = gone_at t u i _ h e (λ n' e' same. d)
lost_is_unreachable t u h settled (via j m f lost hop) i e =
    let (m', f', gone) = lost_is_unreachable t u h settled lost j f in
    let from_m = All-get_elem? _ u j m' settled f' (ap (λ z. z.distance) gone) in
    gone_at t u i _ h e (λ n' e' same. elim (All-get_elem? _ u i n' from_m e') [
      | inl d ↦ ap (λ z. z.distance) (sym same) ∙ d
      | inr avoids ↦
          absurd (avoids (ap (λ z. z.mip) gone ∙ (hop ∙ ap (λ z. z.next_mip) (sym same))))
    ])

-- With more fuel than reachable nodes, and a table within `MAX_NODES`, the loop ends. In the table
-- that it leaves, a node is unreachable if it was lost, and is as it was if it was not: lost are the
-- nodes that are unreachable, and those whose next hop is the address of a lost node of the table.
pub update_broken_paths_exact :
    (fuel : ℕ) (t : RoutingList)
    → reachable t < fuel
    → length t ≤ max_nodes
    → (t' : RoutingList) × (change : Bool) × (update_broken_paths fuel t ≡ ret (t', change))
      × ((i : ℕ) (n : Node)
          → get_elem? t i ≡ some n
          → (n' : Node) × (get_elem? t' i ≡ some n')
            × (((n' ≡ unreachable n) × IsLost t n) ⊎ ((n' ≡ n) × ¬ IsLost t n)))
update_broken_paths_exact fuel t enough fits =
    let (t', change, returns, repairs) = update_broken_paths_lem fuel t enough fits in
    let marked : Marked (IsLost t) t t' =
      Gives-ret (λ r. Marked (IsLost t) t r.0) _ (t', change)
        (update_broken_paths-Marked t fuel t (Marked-refl (IsLost t) t)) returns in
    (t', change, returns, λ i n e. exact t' marked repairs.settled i n e)
  where
    exact :
        (t' : RoutingList)
        → Marked (IsLost t) t t'
        → Settled t'
        → (i : ℕ) (n : Node) → get_elem? t i ≡ some n
        → (n' : Node) × (get_elem? t' i ≡ some n')
          × (((n' ≡ unreachable n) × IsLost t n) ⊎ ((n' ≡ n) × ¬ IsLost t n))
    exact t' marked settled i n e =
        let (n', e', image) = Marked-get_elem? (IsLost t) t t' i n marked e in
        elim image [
          | inr gone ↦ (n', e', inl gone)
          | inl same ↦ elim (Bool-cases (n.distance == max_distance)) [
            | inl at_max ↦
                let d = eq_of_== n.distance max_distance at_max in
                (n', e', inl (same ∙ ap (λ k. record n { distance = k }) d, is_max d))
            | inr finite ↦ (
              n',
              e',
              inr (
                same,
                λ lost.
                    let (z, f, gone) = lost_is_unreachable t t' marked settled lost i e in
                    absurd (ground (arith, z, f, gone, same, e')),
              ),
            )
          ]
        ]
