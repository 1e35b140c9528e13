-- ===== src/Common/Ints.antt =====
-- The integers over the native numbers, with Boolean tests.
use Prim.Native.Nat.{ℕ, zero, suc, ◌+◌, ◌-◌}
use mathlib.Core.Bool.{Bool, true, false}
use corecommon.Common.Tests.{leb, ◌==◌, if◌then◌else◌}

pub data ℤ : Type 0 where
  pos : ℕ → ℤ
  negsuc : ℕ → ℤ

abbrev pub neg : ℤ → ℤ
neg (pos zero) = pos zero
neg (pos (suc n)) = negsuc n
neg (negsuc n) = pos (suc n)

abbrev sub_nat : ℕ → ℕ → ℤ
sub_nat a b = if leb b a then pos (a - b) else negsuc (b - a - 1)

infixl 60 ◌+ℤ◌ ◌-ℤ◌
abbrev pub ◌+ℤ◌ : ℤ → ℤ → ℤ
pos a +ℤ pos b = pos (a + b)
pos a +ℤ negsuc b = sub_nat a (suc b)
negsuc a +ℤ pos b = sub_nat b (suc a)
negsuc a +ℤ negsuc b = negsuc (suc (a + b))

abbrev pub ◌-ℤ◌ : ℤ → ℤ → ℤ
a -ℤ b = a +ℤ neg b

infix 50 ◌≤?ℤ◌ ◌==ℤ◌
abbrev pub ◌≤?ℤ◌ : ℤ → ℤ → Bool
pos a ≤?ℤ pos b = leb a b
pos a ≤?ℤ negsuc b = false
negsuc a ≤?ℤ pos b = true
negsuc a ≤?ℤ negsuc b = leb b a

abbrev pub ◌==ℤ◌ : ℤ → ℤ → Bool
pos a ==ℤ pos b = a == b
negsuc a ==ℤ negsuc b = a == b
_ ==ℤ _ = false
