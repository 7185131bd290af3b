-- ===== src/Miptp/Main/Ports.antt =====
-- Ports are given out once.
use in_lib.Base.{
  ℕ, zero, suc, ◌≡◌, refl, sym, ap, ◌≢◌, ◌⊎◌, inl, inr, true, List, [], ◌∷◌, map, Bool-cases, set,
  Byte, All, All-mono, arith,
}
use in_lib.Miptp.Host.{Host, available_port}
use in_lib.Miptp.Main.{request_port}

abbrev pub ports_of : List Host → List ℕ
ports_of = map (λ h. h.port)

-- No port but 0, which stands for none, occurs twice.
abbrev pub Unique : List ℕ → Type 0
Unique [] = Unit
Unique (p ∷ ps) = All (λ q. (p ≡ 0) ⊎ (p ≢ q)) ps × Unique ps

available_port-All :
    (hosts : List Host) (port : ℕ)
    → available_port hosts port ≡ true
    → All (λ q. q ≢ port) (ports_of hosts)
unfolding available_port
available_port-All [] port h = tt
available_port-All (x ∷ hosts) port h = (ground arith, available_port-All hosts port (ground arith))

ports-set :
    (hosts : List Host) (i : ℕ) (host : Host)
    → ports_of (set hosts i host) ≡ set (ports_of hosts) i host.port
ports-set [] i host = refl
ports-set (x ∷ hosts) zero host = refl
ports-set (x ∷ hosts) (suc i) host = ap (◌∷◌ x.port) (ports-set hosts i host)

All-set : (P : ℕ → Type 0) (ps : List ℕ) (i p : ℕ) → P p → All P ps → All P (set ps i p)
All-set P [] i p h a = tt
All-set P (q ∷ ps) zero p h a = (h, a.1)
All-set P (q ∷ ps) (suc i) p h a = (a.0, All-set P ps i p h a.1)

Unique-set : (ps : List ℕ) (i p : ℕ) → All (λ q. q ≢ p) ps → Unique ps → Unique (set ps i p)
Unique-set [] i p fresh u = tt
Unique-set (q ∷ ps) zero p fresh u = (All-mono _ _ ps (λ r ne. inr (λ e. ne (sym e))) fresh.1, u.1)
Unique-set (q ∷ ps) (suc i) p fresh u =
    (All-set _ ps i p (inr fresh.0) u.0, Unique-set ps i p fresh.1 u.1)

-- Where no port but 0, which stands for none, occurs twice, a request for a port leaves it so.
pub request_port-Unique :
    (i fd : ℕ) (port : Byte) (hosts : List Host) (host : Host)
    → Unique (ports_of hosts)
    → Unique (ports_of (request_port i fd port hosts host).0)
unfolding request_port
request_port-Unique i fd port hosts host u = elim (Bool-cases (available_port hosts port)) [
  | inl free ↦
      rw (request_port, free, ports-set)
        (Unique-set (ports_of hosts) i port (available_port-All hosts port free) u)
  | inr taken ↦ rw (request_port, taken) u
]
