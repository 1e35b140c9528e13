-- ===== src/Numeric/Tests.antt =====
-- Tests of src/numeric.cpp, and the theorem about it applied to a concrete number.
use corecommon.Common.{◌+◌, ◌≡◌, ◌<◌, refl, not, length, true, false, [], ◌∷◌, arith, pos}
use corecommon.Numeric.Digits.{
  Digital, unsigned, back, pad, pad_front, pad_back, trim, trim_front, trim_back, drop_zeros,
  add_at, carry_out, add, sub_at, borrow_out, sub,
}
use corecommon.Numeric.Signs.{negate_digits, negate, greater, geq, is_eq, cmp_digits, cmp}
use corecommon.Numeric.Negated.{negate-number}
use corecommon.Numeric.Compared.{relation, cmp-relation}
use corecommon.Numeric.Carried.{AreDigits, number, sign}

-- 65536 * 65535 + 65535, and -65536.
abbrev full : Digital
full = record { negative = false; exponent = pos 1; digits = 65535 ∷ 65535 ∷ [] }

abbrev minus_65536 : Digital
minus_65536 = record { negative = true; exponent = pos 0; digits = 0 ∷ [] }

raised : (add 2 (pos 0) true full).digits ≡ 1 ∷ 0 ∷ 1 ∷ []
unfolding add pad pad_front pad_back unsigned add_at carry_out trim trim_front trim_back drop_zeros
raised = refl

-- 0 - 65536 is trimmed to the single digit 0 with the sign.
lowered :
    sub 1 (pos 1) true (record { negative = false; exponent = pos 0; digits = 0 ∷ [] })
    ≡ minus_65536
unfolding sub pad pad_front pad_back back unsigned sub_at borrow_out trim trim_front trim_back
    drop_zeros
lowered = refl

-- Padding that puts a 0 in front of it, so that it becomes -65536 * 65536.
padded_wrong : (pad (pos 1) (pos 1) minus_65536).digits ≡ 0 ∷ 0 ∷ []
unfolding pad pad_front pad_back back unsigned
padded_wrong = refl

abbrev five : Digital
five = record { negative = false; exponent = pos 0; digits = 5 ∷ [] }

abbrev two : Digital
two = record { negative = false; exponent = pos 0; digits = 2 ∷ [] }

five-AreDigits : AreDigits five.digits
unfolding AreDigits
five-AreDigits = (omega arith, tt)

two-AreDigits : AreDigits two.digits
unfolding AreDigits
two-AreDigits = (omega arith, tt)

five_positive : 0 < number five.digits
unfolding number
five_positive = omega arith

negate-number_example :
    (number (negate five).digits + number five.digits ≡ sign five + sign (negate five))
    × ((negate five).negative ≡ not five.negative)
    × ((negate five).exponent ≡ five.exponent)
    × (length (negate five).digits ≡ length five.digits)
negate-number_example = negate-number five five-AreDigits five_positive

cmp-relation_example : cmp five two geq ≡ relation geq (number five.digits) (number two.digits)
cmp-relation_example = cmp-relation geq five two refl refl refl refl five-AreDigits two-AreDigits

-- The negative of -65536 is -65536.
negated_wrong : negate minus_65536 ≡ minus_65536
unfolding negate negate_digits
negated_wrong = refl

-- 5 > 65536, 65537 > 131072, and -2 > -1.
compared_exponents :
    cmp five (record { negative = false; exponent = pos 1; digits = 1 ∷ [] }) greater ≡ true
unfolding cmp cmp_digits is_eq
compared_exponents = refl

compared_lengths :
    cmp
      (record { negative = false; exponent = pos 1; digits = 1 ∷ 1 ∷ [] })
      (record { negative = false; exponent = pos 1; digits = 2 ∷ [] })
      greater
    ≡ true
unfolding cmp is_eq
compared_lengths = refl

compared_negative :
    cmp
      (record { negative = true; exponent = pos 0; digits = 65534 ∷ [] })
      (record { negative = true; exponent = pos 0; digits = 65535 ∷ [] })
      greater
    ≡ true
unfolding cmp cmp_digits is_eq
compared_negative = refl
