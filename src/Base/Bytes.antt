-- ===== src/Base/Bytes.antt =====
-- Buffers of bytes: a zeroed C buffer of which the first `n` bytes are used, and reads from one.
use Prim.Native.Nat.{ℕ, zero, suc, ◌+◌, ◌-◌, ◌%◌, ◌≤◌, ◌<◌}
use Prim.Native.Nat.add
use mathlib.Core.Path.{◌≡◌, refl, ap, ap₂, ◌∙◌, sym}
use mathlib.Core.Bool.{Bool, ◌&&◌}
use mathlib.Core.List.{List, [], ◌∷◌, ◌++◌}
use native.Mathlib.Omega.{arith}
use in_lib.Base.Tests.{◌==◌, if◌then◌else◌}
use in_lib.Base.Lists.{All, length, get_or, drop}

abbrev pub Byte : Type 0
Byte = ℕ

-- `BUFSIZE` of general.h.
abbrev pub bufsize : ℕ
bufsize = 4096

-- The first `n` bytes of a buffer that starts with `bs` and is zero behind it.
abbrev pub first_bytes : ℕ → List Byte → List Byte
first_bytes zero bs = []
first_bytes (suc n) [] = 0 ∷ first_bytes n []
first_bytes (suc n) (b ∷ bs) = b ∷ first_bytes n bs

-- `rest = n % 4; n += rest ? 4-rest : 0`.
abbrev pub align4 : ℕ → ℕ
align4 n = n + (if (n % 4) == 0 then 0 else 4 - n % 4)

-- A read into a buffer that is not cleared: what stood behind the new bytes is still there.
abbrev pub overlay : List Byte → List Byte → List Byte
overlay new old = new ++ drop (length new) old

-- `memcmp(msg, word, 3) == 0`, the bytes behind the buffer's contents being zero.
abbrev pub starts_with3 : List Byte → Byte → Byte → Byte → Bool
starts_with3 msg a b c = (get_or msg 0 0 == a) && ((get_or msg 1 0 == b) && (get_or msg 2 0 == c))

pub length-first_bytes : (n : ℕ) (bs : List Byte) → length (first_bytes n bs) ≡ n
length-first_bytes zero bs = refl
length-first_bytes (suc n) [] = ap suc (length-first_bytes n [])
length-first_bytes (suc n) (b ∷ bs) = ap suc (length-first_bytes n bs)

pub get_or-first_bytes :
    (n i : ℕ) (bs : List Byte) → i < n → get_or (first_bytes n bs) i 0 ≡ get_or bs i 0
get_or-first_bytes zero i bs h = elim h [ ]
get_or-first_bytes (suc n) zero [] h = refl
get_or-first_bytes (suc n) zero (b ∷ bs) h = refl
get_or-first_bytes (suc n) (suc i) [] h = get_or-first_bytes n i [] (omega arith)
get_or-first_bytes (suc n) (suc i) (b ∷ bs) h = get_or-first_bytes n i bs (omega arith)

pub first_bytes-first_bytes :
    (m n : ℕ) (bs : List Byte) → m ≤ n → first_bytes m (first_bytes n bs) ≡ first_bytes m bs
first_bytes-first_bytes zero n bs h = refl
first_bytes-first_bytes (suc m) zero bs h = elim h [ ]
first_bytes-first_bytes (suc m) (suc n) [] h =
    ap (◌∷◌ 0) (first_bytes-first_bytes m n [] (omega arith))
first_bytes-first_bytes (suc m) (suc n) (b ∷ bs) h =
    ap (◌∷◌ b) (first_bytes-first_bytes m n bs (omega arith))

pub first_bytes_self : (bs : List Byte) → first_bytes (length bs) bs ≡ bs
first_bytes_self [] = refl
first_bytes_self (b ∷ bs) = ap (◌∷◌ b) (first_bytes_self bs)

pub align4_aligned : (n : ℕ) → (align4 n % 4 ≡ 0) × (n ≤ align4 n) × (align4 n < n + 4)
align4_aligned n = (ground arith, ground arith, ground arith)

pub get_or-drop {ℓ} :
    {A : Type ℓ} (k i : ℕ) (xs : List A) (d : A) → get_or (drop k xs) i d ≡ get_or xs (k + i) d
get_or-drop zero i xs d = ap (λ k. get_or xs k d) (omega arith)
get_or-drop (suc k) i [] d = refl
get_or-drop (suc k) i (x ∷ xs) d =
    get_or-drop k i xs d ∙ sym (ap (λ j. get_or (x ∷ xs) j d) (add.suc k i))

pub first_bytes-append :
    (xs ys : List Byte) (n : ℕ) → first_bytes (length xs + n) (xs ++ ys) ≡ xs ++ first_bytes n ys
first_bytes-append [] ys n = ap (λ k. first_bytes k ys) (add.zero n)
first_bytes-append (x ∷ xs) ys n =
    ap (λ k. first_bytes k (x ∷ (xs ++ ys))) (add.suc (length xs) n)
    ∙ ap (◌∷◌ x) (first_bytes-append xs ys n)

pub first_bytes_prefix : (xs ys : List Byte) (n : ℕ) → n ≡ length xs → first_bytes n (xs ++ ys) ≡ xs
first_bytes_prefix [] ys n e = ap (λ k. first_bytes k ys) e
first_bytes_prefix (x ∷ xs) ys n e =
    ap (λ k. first_bytes k (x ∷ (xs ++ ys))) e ∙ ap (◌∷◌ x) (first_bytes_prefix xs ys _ refl)

-- Padding a list to its length and more.
pub first_bytes_pad :
    (xs : List Byte) (n : ℕ) → first_bytes (length xs + n) xs ≡ xs ++ first_bytes n []
first_bytes_pad [] n = ap (λ k. first_bytes k []) (add.zero n)
first_bytes_pad (x ∷ xs) n =
    ap (λ k. first_bytes k (x ∷ xs)) (add.suc (length xs) n) ∙ ap (◌∷◌ x) (first_bytes_pad xs n)

pub first_bytes_split :
    (xs ys : List Byte) (n k : ℕ)
    → n ≡ length xs + k
    → first_bytes n (xs ++ ys) ≡ xs ++ first_bytes k ys
first_bytes_split xs ys n k e = ap (λ j. first_bytes j (xs ++ ys)) e ∙ first_bytes-append xs ys k

pub drop-first_bytes :
    (k n : ℕ) (bs : List Byte) → drop k (first_bytes n bs) ≡ first_bytes (n - k) (drop k bs)
drop-first_bytes zero n bs = ap (λ m. first_bytes m bs) (omega arith)
drop-first_bytes (suc k) zero bs =
    let none_left : zero ≡ zero - suc k = omega arith in
    ap (λ m. first_bytes m (drop (suc k) bs)) none_left
drop-first_bytes (suc k) (suc n) [] =
    let less : n - k ≡ suc n - suc k = omega arith in
    drop-first_bytes k n [] ∙ ap₂ first_bytes less (drop-nil k)
  where
    drop-nil : (j : ℕ) → drop {A = Byte} j [] ≡ drop {A = Byte} (suc j) []
    drop-nil zero = refl
    drop-nil (suc j) = refl
drop-first_bytes (suc k) (suc n) (b ∷ bs) =
    let less : n - k ≡ suc n - suc k = omega arith in
    drop-first_bytes k n bs ∙ ap (λ m. first_bytes m (drop k bs)) less

pub first_two :
    (a b : Byte) (bs : List Byte) (n k : ℕ)
    → n ≡ 2 + k
    → first_bytes n (a ∷ b ∷ bs) ≡ a ∷ b ∷ first_bytes k bs
first_two a b bs zero k e = absurd (omega arith)
first_two a b bs (suc zero) k e = absurd (omega arith)
first_two a b bs (suc (suc n)) k e = ap (λ j. a ∷ b ∷ first_bytes j bs) (omega arith)

pub get_or-byte : (bytes : List Byte) (i : ℕ) → All (λ b. b < 256) bytes → get_or bytes i 0 < 256
get_or-byte [] i h = omega arith
get_or-byte (b ∷ bytes) zero h = h.0
get_or-byte (b ∷ bytes) (suc i) h = get_or-byte bytes i h.1
