-- ===== src/Base/Int.antt =====
-- The C type `int` (32 bits, two's complement): its values as integers, the conversion of a
-- `uint32_t`, the tests `==`, `<`, `>`, and the remainder `%` where it is used as an index.
use Prim.Native.Nat.{ℕ, suc, ◌-◌, ◌%◌, ◌^◌, ◌≤◌, ◌<◌}
use mathlib.Core.Path.{◌≡◌}
use mathlib.Core.Logic.{◌↔◌}
use mathlib.Core.Bool.{Bool, true, false}
use mathlib.Core.Option.{Option, none, some}
use native.Mathlib.Omega.{arith}
use selective_reject.Base.Tests.{ltb, ◌==◌, if◌then◌else◌}

-- `negsuc n` is -(n + 1).
pub data ℤ : Type 0 where
  pos : ℕ → ℤ
  negsuc : ℕ → ℤ

abbrev pub int_max : ℕ
int_max = 2 ^ 31 - 1

-- The `int` that a `uint32_t` converts to.
abbrev pub signed32 : ℕ → ℤ
signed32 w = if ltb w (2 ^ 31) then pos w else negsuc (2 ^ 32 - w - 1)

-- The `uint32_t` that an `int` converts to.
abbrev pub unsigned32 : ℤ → ℕ
unsigned32 (pos n) = n % 2 ^ 32
unsigned32 (negsuc n) = 2 ^ 32 - 1 - n % 2 ^ 32

infix 50 ◌==ℤ◌
abbrev pub ◌==ℤ◌ : ℤ → ℤ → Bool
pos a ==ℤ pos b = a == b
negsuc a ==ℤ negsuc b = a == b
_ ==ℤ _ = false

abbrev pub ltb_ℤ : ℤ → ℤ → Bool
ltb_ℤ (pos a) (pos b) = ltb a b
ltb_ℤ (pos a) (negsuc b) = false
ltb_ℤ (negsuc a) (pos b) = true
ltb_ℤ (negsuc a) (negsuc b) = ltb b a

-- The index `a % n` of an array: `none` where the division traps (n = 0) and where the remainder
-- is negative, so that the access is out of bounds.
abbrev pub index : ℤ → ℕ → Option ℕ
index (pos a) n = if n == 0 then none else some (a % n)
index (negsuc a) n = if n == 0 then none else if suc a % n == 0 then some 0 else none

pub ==ℤ_iff : (a b : ℤ) → ((a ==ℤ b) ≡ true) ↔ (a ≡ b)
==ℤ_iff a b = ground arith

-- Below 2^31 the conversions change nothing.
pub signed32_small : (w : ℕ) → w ≤ int_max → signed32 w ≡ pos w
signed32_small w h = ground arith

pub unsigned32_small : (w : ℕ) → w ≤ int_max → unsigned32 (pos w) ≡ w
unsigned32_small w h = omega arith

pub index_pos : (a n : ℕ) → 0 < n → index (pos a) n ≡ some (a % n)
index_pos a n h = ground arith
