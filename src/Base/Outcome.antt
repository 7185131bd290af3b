-- ===== src/Base/Outcome.antt =====
-- The outcome of C code that may call `exit`, leave its arrays' bounds, or, where a `while` takes
-- fuel, run out.

use mathlib.Core.Path.{◌≡◌, subst}
use mathlib.Core.Bool.{Bool, true, false}
use in_lib.Base.Tests.{if◌then◌else◌}

pub data Run {ℓ} (A : Type ℓ) : Type ℓ where
  ret : A → Run A
  -- The process ended, by `exit`, `abort` or `error`.
  failed : Run A
  -- An access outside an array, or through a null pointer.
  overrun : Run A
  no_fuel : Run A

infixl 5 ◌>>=◌
abbrev pub ◌>>=◌ {ℓ κ} : {A : Type ℓ} {B : Type κ} → Run A → (A → Run B) → Run B
ret a >>= f = f a
failed >>= f = failed
overrun >>= f = overrun
no_fuel >>= f = no_fuel

-- The code ends: with a result of the kind that `P` says, by `exit`, or by leaving
-- an array.
abbrev pub Ends {ℓ} : {A : Type ℓ} → (A → Type 0) → Run A → Type 0
Ends P (ret a) = P a
Ends P failed = Unit
Ends P overrun = Unit
Ends P no_fuel = ⊥

pub Ends->>= {ℓ κ} :
    {A : Type ℓ} {B : Type κ} (P : A → Type 0) (Q : B → Type 0) (m : Run A) (f : A → Run B)
    → Ends P m
    → ((a : A) → P a → Ends Q (f a))
    → Ends Q (m >>= f)
Ends->>= P Q (ret a) f h k = k a h
Ends->>= P Q failed f h k = tt
Ends->>= P Q overrun f h k = tt
Ends->>= P Q no_fuel f h k = absurd h

-- Either branch of a test.
pub Ends-if {ℓ} :
    {A : Type ℓ} (P : A → Type 0) (b : Bool) (m n : Run A)
    → Ends P m
    → Ends P n
    → Ends P (if b then m else n)
Ends-if P true m n h k = h
Ends-if P false m n h k = k

-- A result of a kind that the code ends with.
pub Ends-ret {ℓ} : {A : Type ℓ} (P : A → Type 0) (m : Run A) (a : A) → Ends P m → m ≡ ret a → P a
Ends-ret P m a h e = subst (Ends P) e h

-- What is returned, if anything is, is of that kind.
abbrev pub Gives {ℓ} : {A : Type ℓ} → (A → Type 0) → Run A → Type 0
Gives P (ret a) = P a
Gives P failed = Unit
Gives P overrun = Unit
Gives P no_fuel = Unit

pub Gives->>= {ℓ κ} :
    {A : Type ℓ} {B : Type κ} (P : A → Type 0) (Q : B → Type 0) (m : Run A) (f : A → Run B)
    → Gives P m
    → ((a : A) → P a → Gives Q (f a))
    → Gives Q (m >>= f)
Gives->>= P Q (ret a) f h k = k a h
Gives->>= P Q failed f h k = tt
Gives->>= P Q overrun f h k = tt
Gives->>= P Q no_fuel f h k = tt

pub Gives-ret {ℓ} : {A : Type ℓ} (P : A → Type 0) (m : Run A) (a : A) → Gives P m → m ≡ ret a → P a
Gives-ret P m a h e = subst (Gives P) e h
