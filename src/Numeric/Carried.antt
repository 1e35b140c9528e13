-- ===== src/Numeric/Carried.antt =====
-- `add` and `sub` of src/numeric.cpp are exact on two's complement numbers.
use corecommon.Common.{
  ℕ, suc, ◌+◌, ◌*◌, ◌^◌, ◌<◌, ◌≡◌, Bool, true, false, List, [], ◌∷◌, length, if◌then◌else◌, ◌⊎◌,
  pos, ◌+ℤ◌,
}
use corecommon.Numeric.Digits.{Digital}

unfoldable pub AreDigits : List ℕ → Type 0
AreDigits [] = Unit
AreDigits (d ∷ ds) = (d < 65536) × AreDigits ds

-- The digits as a number, the first the highest.
unfoldable pub number : List ℕ → ℕ
number [] = 0
number (d ∷ ds) = d * 65536 ^ length ds + number ds

unfoldable pub flag : Bool → ℕ
flag false = 0
flag true = 1

-- What two's complement takes off.
unfoldable pub sign : Digital → ℕ
sign d = if d.negative then 65536 ^ length d.digits else 0

-- The last digit keeps its exponent.
unfoldable pub KeepsEnd : Digital → Digital → Type 0
KeepsEnd d d' =
    ((d'.exponent ≡ d.exponent) × (length d'.digits ≡ length d.digits))
    ⊎ ((d'.exponent ≡ d.exponent +ℤ pos 1) × (length d'.digits ≡ suc (length d.digits)))
