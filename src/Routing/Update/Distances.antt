-- ===== src/Routing/Update/Distances.antt =====
-- What an update leaves of the meaning of distances: `IsGood j d` is what a finite distance `d` to
-- the address `j` stands for.
use in_lib.Base.{
  ℕ, zero, suc, ◌+◌, ◌%◌, ◌≤◌, ◌<◌, ◌≡◌, refl, sym, subst, ◌≢◌, ◌⊎◌, inl, inr, Bool, not, Gives,
  Gives->>=, ◌&&◌, List, [], ◌∷◌, none, ltb, ◌==◌, eq_of_==, Bool-cases, Option-cases, length, All,
  All-append, All-mono, arith,
}
use in_lib.Packet.{UnixPacket, max_nodes}
use in_lib.Routing.Table.{Node, RoutingList, max_distance, add_to_linked_list}
use in_lib.Routing.Table.Entry.{entry}
use in_lib.Routing.Broken.{broken_mips, mark_via, mark_all, update_broken_paths}
use in_lib.Routing.Update.{
  UpdatePair, improve, scan, apply_pair, apply_pairs, announced, update_routing_list,
}
use in_lib.Routing.Update.Merge.{scan-none, scan-some, known-apply_pair}

-- A pair that says of no unknown address that it cannot be reached.
abbrev pub IsKnown : RoutingList → UpdatePair → Type 0
IsKnown t p = (p.distance ≢ max_distance) ⊎ (entry p.mip_target t ≢ none)

IsKnown-apply_pair :
    (s now : ℕ) (q p : UpdatePair) (t : RoutingList)
    → IsKnown t p
    → IsKnown (apply_pair s now q t).0 p
IsKnown-apply_pair s now q p t (inl ne) = inl ne
IsKnown-apply_pair s now q p t (inr ne) = inr (known-apply_pair p.mip_target s now q t ne)

module _ (IsGood : ℕ → ℕ → Type 0) where
  abbrev pub IsFine : Node → Type 0
  IsFine n = (n.distance ≤ max_distance) × ((n.distance ≡ max_distance) ⊎ IsGood n.mip n.distance)

  -- Of a pair: a finite distance is right for the receiver when one is added.
  abbrev pub IsFinePair : UpdatePair → Type 0
  IsFinePair p =
      (p.distance ≤ max_distance)
      × ((p.distance ≡ max_distance) ⊎ IsGood p.mip_target (p.distance + 1))

  lost-IsFine : (n : Node) → IsFine (record n { distance = max_distance })
  lost-IsFine n = (omega arith, inl refl)

  improve-IsFine :
      (s : ℕ) (p : UpdatePair) (n : Node)
      → n.mip ≡ p.mip_target
      → IsFinePair p
      → IsFine n
      → IsFine (improve s p n).0
  unfolding improve
  improve-IsFine s p n same f g =
      elim (Bool-cases ((p.distance == max_distance) && (s == n.next_mip))) [
        | inl poisoned ↦ rw poisoned (lost-IsFine n)
        | inr other ↦ elim (Bool-cases (ltb (p.distance + 1) n.distance)) [
          | inr longer ↦ rw (other, longer) g
          | inl shorter ↦
              let below : p.distance + 1 < max_distance + 1 = ground arith in
              let narrow : (p.distance + 1) % 256 ≡ p.distance + 1 = omega arith in
              rw (other, shorter, narrow)
                (
                  omega arith,
                  elim f.1 [
                    | inl lost ↦ absurd (ground arith)
                    | inr good ↦ inr (subst (λ j. IsGood j (p.distance + 1)) (sym same) good)
                  ],
                )
        ]
      ]

  scan-IsFine :
      (s : ℕ) (p : UpdatePair) (t : RoutingList)
      → IsFinePair p
      → All IsFine t
      → All IsFine (scan s p t).list
  unfolding scan
  scan-IsFine s p [] f g = tt
  scan-IsFine s p (n ∷ rest) f g = elim (Bool-cases (n.mip == p.mip_target)) [
    | inl hit ↦ rw hit (improve-IsFine s p n (eq_of_== _ _ hit) f g.0, scan-IsFine s p rest f g.1)
    | inr miss ↦ rw miss (g.0, scan-IsFine s p rest f g.1)
  ]

  apply_pair-IsFine :
      (s now : ℕ) (p : UpdatePair) (t : RoutingList)
      → IsFinePair p
      → IsKnown t p
      → All IsFine t
      → All IsFine (apply_pair s now p t).0
  unfolding apply_pair add_to_linked_list
  apply_pair-IsFine s now p t f k g = elim (Option-cases (entry p.mip_target t)) [
    | inl e ↦
        let finite : p.distance ≢ max_distance = elim k [
          | inl ne ↦ ne
          | inr known ↦ absurd (known e)
        ] in
        let good : IsGood p.mip_target (p.distance + 1) = elim f.1 [
          | inl lost ↦ absurd (finite lost)
          | inr right ↦ right
        ] in
        let narrow : (p.distance + 1) % 256 ≡ p.distance + 1 = omega arith in
        rw ((scan-none s p t e).0, (scan-none s p t e).1, apply_pair, narrow)
          (All-append IsFine t _ g ((omega arith, inr good), tt))
    | inr (n, e) ↦ rw (scan-some s p t n e, apply_pair) (scan-IsFine s p t f g)
  ]

  apply_pairs-IsFine :
      (s now : ℕ) (ps : List UpdatePair) (t : RoutingList)
      → All IsFinePair ps
      → All (IsKnown t) ps
      → All IsFine t
      → All IsFine (apply_pairs s now ps t).0
  unfolding apply_pairs
  apply_pairs-IsFine s now [] t f k g = g
  apply_pairs-IsFine s now (p ∷ ps) t f k g =
      apply_pairs-IsFine s now ps (apply_pair s now p t).0 f.1
        (All-mono _ _ ps (λ q. IsKnown-apply_pair s now p q t) k.1)
        (apply_pair-IsFine s now p t f.0 k.0 g)

  mark_via-IsFine : (b : ℕ) (t : RoutingList) → All IsFine t → All IsFine (mark_via b t).0
  unfolding mark_via
  mark_via-IsFine b [] g = tt
  mark_via-IsFine b (n ∷ rest) g =
      elim (Bool-cases (not (n.distance == max_distance) && (b == n.next_mip))) [
        | inl hit ↦ rw hit (lost-IsFine n, mark_via-IsFine b rest g.1)
        | inr miss ↦ rw miss (g.0, mark_via-IsFine b rest g.1)
      ]

  mark_all-IsFine : (bs : List ℕ) (t : RoutingList) → All IsFine t → All IsFine (mark_all bs t).0
  unfolding mark_all
  mark_all-IsFine [] t g = g
  mark_all-IsFine (b ∷ bs) t g = mark_all-IsFine bs (mark_via b t).0 (mark_via-IsFine b t g)

  abbrev FineResult : RoutingList × Bool → Type 0
  FineResult r = All IsFine r.0

  update_broken_paths-IsFine :
      (fuel : ℕ) (t : RoutingList) → All IsFine t → Gives FineResult (update_broken_paths fuel t)
  unfolding update_broken_paths
  update_broken_paths-IsFine zero t g = tt
  update_broken_paths-IsFine (suc fuel) t g =
      elim (Bool-cases (ltb max_nodes (length (broken_mips t)))) [
        | inl many ↦ rw (update_broken_paths, many) tt
        | inr few ↦
            let marked = mark_all-IsFine (broken_mips t) t g in
            elim (Bool-cases (mark_all (broken_mips t) t).1) [
              | inl done ↦
                  rw (update_broken_paths, few, done)
                    (Gives->>= FineResult FineResult _ _
                      (update_broken_paths-IsFine fuel (mark_all (broken_mips t) t).0 marked)
                      (λ r h. h))
              | inr still ↦ rw (update_broken_paths, few, still) marked
            ]
      ]

  -- An update with right pairs, none of which calls an unknown address unreachable, leaves right
  -- distances.
  pub update_routing_list-IsFine :
      (packet : UnixPacket) (now : ℕ) (t : RoutingList)
      → All IsFinePair (announced packet)
      → All (IsKnown t) (announced packet)
      → All IsFine t
      → Gives FineResult (update_routing_list packet now t)
  unfolding update_routing_list
  update_routing_list-IsFine packet now t f k g =
      Gives->>= FineResult FineResult _ _
        (update_broken_paths-IsFine _ (apply_pairs packet.mip now (announced packet) t).0
          (apply_pairs-IsFine packet.mip now (announced packet) t f k g))
        (λ r h. h)
