-- ===== src/Common/Int.antt =====
-- The C `int` as a mathematical integer.
use Prim.Native.Nat.{ℕ, suc, ◌+◌, ◌-◌, ◌^◌, ◌<◌}
use mathlib.Core.Path.{◌≡◌, refl}
use mathlib.Core.Bool.{Bool}
use mathlib.Core.Option.{Option, none, some}
use sngrep.Common.Tests.{ltb, leb, ◌==◌, if◌then◌else◌, lt→ltb}

-- `negsuc n` is -(n + 1).
pub data ℤ : Type 0 where
  pos : ℕ → ℤ
  negsuc : ℕ → ℤ

abbrev pub pos_part : ℤ → ℕ
pos_part (pos n) = n
pos_part (negsuc n) = 0

abbrev pub neg_part : ℤ → ℕ
neg_part (pos n) = 0
neg_part (negsuc n) = suc n

-- a - b, as an integer.
abbrev pub sub_ℕ : ℕ → ℕ → ℤ
sub_ℕ a b = if leb b a then pos (a - b) else negsuc (b - a - 1)

-- A `uint32_t` converted to `int`, and back.
abbrev pub to_int : ℕ → ℤ
to_int n = if ltb n (2 ^ 31) then pos n else negsuc (2 ^ 32 - 1 - n)

abbrev pub to_u32 : ℤ → ℕ
to_u32 (pos n) = n
to_u32 (negsuc n) = 2 ^ 32 - 1 - n

-- `++i` of an `int` that is not negative; an overflow is a fault.
abbrev pub next_int : ℕ → Option ℕ
next_int i = if ltb (i + 1) (2 ^ 31) then some (i + 1) else none

infixl 65 ◌+ℤ◌ ◌-ℤ◌
unfoldable pub ◌+ℤ◌ : ℤ → ℤ → ℤ
a +ℤ b = sub_ℕ (pos_part a + pos_part b) (neg_part a + neg_part b)

unfoldable pub ◌-ℤ◌ : ℤ → ℤ → ℤ
a -ℤ b = sub_ℕ (pos_part a + neg_part b) (neg_part a + pos_part b)

abbrev pub ltb_ℤ : ℤ → ℤ → Bool
ltb_ℤ a b = ltb (pos_part a + neg_part b) (pos_part b + neg_part a)

abbrev pub eq_ℤ : ℤ → ℤ → Bool
eq_ℤ a b = (pos_part a + neg_part b) == (pos_part b + neg_part a)

pub to_int-small : (n : ℕ) → n < 2 ^ 31 → to_int n ≡ pos n
to_int-small n l = rw (lt→ltb n (2 ^ 31) l) refl

pub next_int-small : (i : ℕ) → i + 1 < 2 ^ 31 → next_int i ≡ some (i + 1)
next_int-small i l = rw (lt→ltb (i + 1) (2 ^ 31) l) refl
