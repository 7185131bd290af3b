-- ===== src/Base/Text.antt =====
-- C strings in a buffer: the bytes before the first zero. Behind the bytes of a list the buffer is
-- zero.
use Prim.Native.Nat.{ℕ, zero, suc, ◌≤◌}
use mathlib.Core.Path.{◌≡◌, refl}
use mathlib.Core.Logic.{◌≢◌}
use mathlib.Core.Bool.{Bool, true, false, ◌&&◌}
use mathlib.Core.List.{List, [], ◌∷◌, ◌++◌}
use native.Mathlib.Omega.{arith}
use in_lib.Base.Tests.{◌==◌, if◌then◌else◌}
use in_lib.Base.Lists.{length, All}
use in_lib.Base.Bytes.{Byte, first_bytes}

unfoldable pub strlen : List Byte → ℕ
strlen [] = 0
strlen (b ∷ bytes) = let later = strlen bytes in if b == 0 then 0 else suc later

unfoldable pub c_string : List Byte → List Byte
c_string [] = []
c_string (b ∷ bytes) = let later = c_string bytes in if b == 0 then [] else b ∷ later

-- `strcmp` of two such strings is 0.
unfoldable pub same_bytes : List Byte → List Byte → Bool
same_bytes [] [] = true
same_bytes [] (y ∷ ys) = false
same_bytes (x ∷ xs) [] = false
same_bytes (x ∷ xs) (y ∷ ys) = let later = same_bytes xs ys in (x == y) && later

pub strlen_no_nul : (bytes : List Byte) → All (λ b. b ≢ 0) bytes → strlen bytes ≡ length bytes
unfolding strlen
strlen_no_nul [] h = refl
strlen_no_nul (b ∷ bytes) h = ground (arith, strlen_no_nul bytes h.1)

pub strlen-bound : (bytes : List Byte) → strlen bytes ≤ length bytes
unfolding strlen
strlen-bound [] = omega arith
strlen-bound (b ∷ bytes) = ground (arith, strlen-bound bytes)

-- A string without a zero, with zeros behind it.
pub c_string-append_zeros :
    (text : List Byte) (n : ℕ) → All (λ b. b ≢ 0) text → c_string (text ++ first_bytes n []) ≡ text
unfolding c_string
c_string-append_zeros [] n h = c_string-zeros n
  where
    c_string-zeros : (k : ℕ) → c_string (first_bytes k []) ≡ []
    c_string-zeros zero = refl
    c_string-zeros (suc k) = refl
c_string-append_zeros (b ∷ text) n h = ground (arith, c_string-append_zeros text n h.1)

pub same_bytes_self : (xs : List Byte) → same_bytes xs xs ≡ true
unfolding same_bytes
same_bytes_self [] = refl
same_bytes_self (x ∷ xs) = ground (arith, same_bytes_self xs)

pub same_bytes-length : (xs ys : List Byte) → same_bytes xs ys ≡ true → length xs ≡ length ys
unfolding same_bytes
same_bytes-length [] [] h = refl
same_bytes-length [] (y ∷ ys) h = absurd (cc)
same_bytes-length (x ∷ xs) [] h = absurd (cc)
same_bytes-length (x ∷ xs) (y ∷ ys) h = ground (arith, same_bytes-length xs ys)
