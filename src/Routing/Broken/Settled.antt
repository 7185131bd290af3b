-- ===== src/Routing/Broken/Settled.antt =====
-- What `update_broken_paths` leaves: a table with no route through an unreachable node, after as
-- many rounds as there are reachable nodes at most.
use in_lib.Base.{
  ℕ, zero, suc, ◌≤◌, ◌<◌, ◌≡◌, refl, ap, ◌∙◌, ◌≢◌, ◌⊎◌, inl, inr, Bool, true, false, List, [], ◌∷◌,
  map, ltb, ◌==◌, if◌then◌else◌, Bool-cases, length, length-map, All, Run, ret, ◌>>=◌, Ends,
  Ends->>=, arith,
}
use in_lib.Packet.{max_nodes}
use in_lib.Routing.Table.{Node, RoutingList, max_distance}
use in_lib.Routing.Broken.{broken_mips, mark_via, mark_all, update_broken_paths}

-- The reachable nodes: each round of the loop that changes something makes one fewer.
abbrev pub reachable : RoutingList → ℕ
reachable [] = 0
reachable (n ∷ rest) =
    let later = reachable rest in if n.distance == max_distance then later else suc later

-- What the repair does not touch.
abbrev pub kept : RoutingList → List (ℕ × ℕ × ℕ)
kept = map (λ n. (n.mip, n.next_mip, n.last_rcv))

-- `n` is unreachable, or does not go through `mip`.
abbrev pub Avoids : ℕ → Node → Type 0
Avoids mip n = (n.distance ≡ max_distance) ⊎ (mip ≢ n.next_mip)

-- No reachable node has an unreachable node's address for its next hop.
abbrev pub Settled : RoutingList → Type 0
Settled t = All (λ m. m.distance ≡ max_distance → All (Avoids m.mip) t) t

pub reachable-le-length : (t : RoutingList) → reachable t ≤ length t
reachable-le-length [] = omega arith
reachable-le-length (n ∷ rest) = ground (arith, reachable-le-length rest)

pub kept-mark_via : (b : ℕ) (t : RoutingList) → kept (mark_via b t).0 ≡ kept t
unfolding mark_via
kept-mark_via b [] = refl
kept-mark_via b (n ∷ rest) = ground (arith, kept-mark_via b rest)

reachable-mark_via :
    (b : ℕ) (t : RoutingList)
    → (reachable (mark_via b t).0 ≤ reachable t)
      × ((mark_via b t).1 ≡ true → reachable (mark_via b t).0 < reachable t)
unfolding mark_via
reachable-mark_via b [] = (omega arith, λ e. cc)
reachable-mark_via b (n ∷ rest) = ground (arith, reachable-mark_via b rest)

-- A pass that reports no change made none, and found every node to avoid the address.
mark_via-false :
    (b : ℕ) (t : RoutingList) → (mark_via b t).1 ≡ false → ((mark_via b t).0 ≡ t) × All (Avoids b) t
unfolding mark_via
mark_via-false b [] e = (refl, tt)
mark_via-false b (n ∷ rest) e = ground (arith, mark_via-false b rest)

kept-mark_all : (bs : List ℕ) (t : RoutingList) → kept (mark_all bs t).0 ≡ kept t
unfolding mark_all
kept-mark_all [] t = refl
kept-mark_all (b ∷ bs) t = kept-mark_all bs (mark_via b t).0 ∙ kept-mark_via b t

reachable-mark_all :
    (bs : List ℕ) (t : RoutingList)
    → (reachable (mark_all bs t).0 ≤ reachable t)
      × ((mark_all bs t).1 ≡ true → reachable (mark_all bs t).0 < reachable t)
unfolding mark_all
reachable-mark_all [] t = (omega arith, λ e. cc)
reachable-mark_all (b ∷ bs) t =
    ground (arith, reachable-mark_via b t, reachable-mark_all bs (mark_via b t).0)

mark_all-false :
    (bs : List ℕ) (t : RoutingList)
    → (mark_all bs t).1 ≡ false
    → ((mark_all bs t).0 ≡ t) × All (λ b. All (Avoids b) t) bs
unfolding mark_all
mark_all-false [] t e = (refl, tt)
mark_all-false (b ∷ bs) t e = elim (Bool-cases (mark_via b t).1) [
  | inl done ↦ absurd (ground arith)
  | inr same ↦
      let (stays, avoids) = mark_via-false b t same in
      let later = mark_all-false bs (mark_via b t).0 (ground arith) in
      (later.0 ∙ stays, (avoids, rw stays at later.1))
]

-- A property of all addresses in `update_list`, read at the nodes that put them there.
pub All-broken_mips :
    (P : ℕ → Type 0) (t : RoutingList)
    → All P (broken_mips t)
    → All (λ m. m.distance ≡ max_distance → P m.mip) t
unfolding broken_mips
All-broken_mips P [] h = tt
All-broken_mips P (n ∷ rest) h = elim (Bool-cases (n.distance == max_distance)) [
  | inl e ↦
      (let h' : P n.mip × All P (broken_mips rest) = rw e at h in
        (λ _. h'.0, All-broken_mips P rest h'.1))
  | inr e ↦
      (let h' : All P (broken_mips rest) = rw e at h in
        (λ d. absurd (ground arith), All-broken_mips P rest h'))
]

length-broken_mips-le : (t : RoutingList) → length (broken_mips t) ≤ length t
unfolding broken_mips
length-broken_mips-le [] = omega arith
length-broken_mips-le (n ∷ rest) = ground (arith, length-broken_mips-le rest)

length_of_kept : (t u : RoutingList) → kept t ≡ kept u → length t ≡ length u
length_of_kept t u e = omega (
  arith,
  ap length e,
  length-map {B = ℕ × ℕ × ℕ} t (λ (n : Node). (n.mip, n.next_mip, n.last_rcv)),
  length-map {B = ℕ × ℕ × ℕ} u (λ (n : Node). (n.mip, n.next_mip, n.last_rcv)),
)

-- What the loop returns, started at `t`.
pub record Repairs (t t' : RoutingList) (change : Bool) : Type 0 where
  pub settled : Settled t'
  pub keeps : kept t' ≡ kept t
  pub unchanged : change ≡ false → t' ≡ t
  pub fewer : change ≡ true → reachable t' < reachable t

abbrev RepairOf : RoutingList → Run (RoutingList × Bool) → Type 0
RepairOf t r = (t' : RoutingList) × (change : Bool) × (r ≡ ret (t', change)) × Repairs t t' change

within_max_nodes :
    (t : RoutingList) → length t ≤ max_nodes → ltb max_nodes (length (broken_mips t)) ≡ false
within_max_nodes t h = ground (arith, length-broken_mips-le t)

update_broken_paths-stops :
    (fuel : ℕ) (t : RoutingList)
    → length t ≤ max_nodes
    → (mark_all (broken_mips t) t).1 ≡ false
    → RepairOf t (update_broken_paths (suc fuel) t)
unfolding update_broken_paths
update_broken_paths-stops fuel t h same =
    let (stays, avoids) = mark_all-false (broken_mips t) t same in
    (
      t,
      false,
      rw (update_broken_paths, within_max_nodes t h, same) (ap (λ u. ret (u, false)) stays),
      record {
        settled = All-broken_mips (λ b. All (Avoids b) t) t avoids;
        keeps = refl;
        unchanged = λ _. refl;
        fewer = λ e. cc;
      },
    )

update_broken_paths-again :
    (fuel : ℕ) (t : RoutingList)
    → length t ≤ max_nodes
    → (mark_all (broken_mips t) t).1 ≡ true
    → update_broken_paths (suc fuel) t
      ≡ (update_broken_paths fuel (mark_all (broken_mips t) t).0 >>= λ r. ret (r.0, true))
unfolding update_broken_paths
update_broken_paths-again fuel t h done = rw (update_broken_paths, within_max_nodes t h, done)

-- With more fuel than reachable nodes, and a table within `MAX_NODES`, the loop ends and stays
-- inside `update_list`. The table it leaves has no route through an unreachable node and differs in
-- distances only; it is the old table if the loop reports no change, and otherwise has fewer
-- reachable nodes.
pub update_broken_paths_lem :
    (fuel : ℕ) (t : RoutingList)
    → reachable t < fuel
    → length t ≤ max_nodes
    → (t' : RoutingList) × (change : Bool) × (update_broken_paths fuel t ≡ ret (t', change))
      × Repairs t t' change
update_broken_paths_lem zero t f h = absurd (omega arith)
update_broken_paths_lem (suc fuel) t f h = elim (Bool-cases (mark_all (broken_mips t) t).1) [
  | inr same ↦ update_broken_paths-stops fuel t h same
  | inl done ↦
      let marked = (mark_all (broken_mips t) t).0 in
      let keeps : kept marked ≡ kept t = kept-mark_all (broken_mips t) t in
      let fewer : reachable marked < reachable t = (reachable-mark_all (broken_mips t) t).1 done in
      let (t', change, e, repairs) =
        update_broken_paths_lem fuel marked (omega arith)
          (omega (arith, length_of_kept marked t keeps)) in
      (
        t',
        true,
        update_broken_paths-again fuel t h done ∙ ap (λ r. r >>= λ q. ret (q.0, true)) e,
        record {
          settled = repairs.settled;
          keeps = repairs.keeps ∙ keeps;
          unchanged = λ x. cc;
          fewer = λ _. again marked t' change repairs fewer;
        },
      )
]
  where
    again :
        (marked t' : RoutingList) (change : Bool)
        → Repairs marked t' change
        → reachable marked < reachable t
        → reachable t' < reachable t
    again marked t' true repairs fewer = omega (arith, repairs.fewer refl)
    again marked t' false repairs fewer = rw (repairs.unchanged refl) fewer

-- Without the bound on the table: enough fuel, unless the array of addresses is left.
pub update_broken_paths-Ends :
    (fuel : ℕ) (t : RoutingList)
    → reachable t < fuel
    → Ends (λ r. kept r.0 ≡ kept t) (update_broken_paths fuel t)
unfolding update_broken_paths
update_broken_paths-Ends zero t f = absurd (omega arith)
update_broken_paths-Ends (suc fuel) t f =
    elim (Bool-cases (ltb max_nodes (length (broken_mips t)))) [
      | inl over ↦ rw (over, update_broken_paths) tt
      | inr fits ↦ elim (Bool-cases (mark_all (broken_mips t) t).1) [
        | inr same ↦ rw (fits, same, update_broken_paths) (kept-mark_all (broken_mips t) t)
        | inl done ↦
            rw (fits, done, update_broken_paths)
              (Ends->>= (λ r. kept r.0 ≡ kept (mark_all (broken_mips t) t).0) _ _ _
                (update_broken_paths-Ends fuel (mark_all (broken_mips t) t).0
                  (omega (arith, (reachable-mark_all (broken_mips t) t).1 done)))
                λ r e. e ∙ kept-mark_all (broken_mips t) t)
      ]
    ]
