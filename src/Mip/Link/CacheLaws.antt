-- ===== src/Mip/Link/CacheLaws.antt =====
-- The ARP cache: what `check_cache` finds, and what `cache` keeps.
use in_lib.Base.{
  ℕ, zero, suc, ◌≤◌, ◌≡◌, refl, ◌≢◌, inl, inr, List, [], ◌∷◌, ◌++◌, map, map-append, none, some,
  ltb, ◌==◌, Bool-cases, length, length-append, Byte, All, Distinct, Distinct-snoc, ret, Ends,
  arith,
}
use in_lib.Mip.Link.{CacheEntry, CacheTable, cache_table_len, check_cache, cache_at, cache}

abbrev pub cached : CacheTable → List ℕ
cached = map (λ e. e.mip)

-- An entry for each address at most, and no more than the array holds.
pub record IsCache (t : CacheTable) : Type 0 where
  pub distinct : Distinct (cached t)
  pub fits : length t ≤ cache_table_len

-- What is found is an entry of that address, inside the table.
pub check_cache-some :
    (mip : ℕ) (t : CacheTable) (i : ℕ)
    → check_cache mip t ≡ some i
    → (e : CacheEntry) × (cache_at t i ≡ ret e) × (e.mip ≡ mip)
unfolding check_cache cache_at
check_cache-some mip [] i h = absurd (cc)
check_cache-some mip (e ∷ rest) zero h = (e, refl, ground arith)
check_cache-some mip (e ∷ rest) (suc i) h = check_cache-some mip rest i (ground arith)

-- What is not found is not there.
pub check_cache-none :
    (mip : ℕ) (t : CacheTable) → check_cache mip t ≡ none → All (λ a. a ≢ mip) (cached t)
unfolding check_cache
check_cache-none mip [] h = tt
check_cache-none mip (e ∷ rest) h = (ground arith, check_cache-none mip rest (ground arith))

pub check_cache-append :
    (mip iface : ℕ) (mac : List Byte) (t : CacheTable)
    → (i : ℕ) × (check_cache mip (t ++ (record { mip = mip; iface = iface; mac = mac } ∷ []))
        ≡ some i)
unfolding check_cache
check_cache-append mip iface mac [] = (0, ground arith)
check_cache-append mip iface mac (e ∷ rest) =
    let (i, h) = check_cache-append mip iface mac rest in
    elim (Bool-cases (e.mip == mip)) [
      | inl hit ↦ (0, ground arith)
      | inr miss ↦ (suc i, ground arith)
    ]

pub cache-IsCache :
    (mip iface : ℕ) (mac : List Byte) (t : CacheTable)
    → check_cache mip t ≡ none
    → IsCache t
    → Ends IsCache (cache mip iface mac t)
unfolding cache
cache-IsCache mip iface mac t h v = elim (Bool-cases (ltb (length t) cache_table_len)) [
  | inl room ↦
      rw (room, cache)
        (record {
          distinct =
              rw map-append (Distinct-snoc (cached t) mip v.distinct (check_cache-none mip t h));
          fits =
              ground (arith, length-append t (record { mip = mip; iface = iface; mac = mac } ∷ []));
        })
  | inr full ↦ rw (full, cache) tt
]
