-- ===== src/Numeric/Signs.antt =====
-- `negate` and `cmp` of src/numeric.cpp.
use corecommon.Common.{
  ℕ, ◌-◌, ◌%◌, ◌^◌, Bool, true, false, not, ◌&&◌, ◌||◌, List, [], ◌∷◌, length, ltb, ◌==◌,
  if◌then◌else◌, ◌≤?ℤ◌,
}
use corecommon.Numeric.Digits.{Digital}

-- The loop of `negate` from the last digit to the first; with what is left of `carry`.
unfoldable pub negate_digits : List ℕ → List ℕ × Bool
negate_digits [] = ([], true)
negate_digits (d ∷ ds) =
    let rest = negate_digits ds in
    if rest.1 && not (d == 0)
    then (((2 ^ 16 - d) % 2 ^ 16) ∷ rest.0, false)
    else if not rest.1
    then ((2 ^ 16 - 1 - d) ∷ rest.0, false)
    else (d ∷ rest.0, true)

-- `negative` is flipped in the round that ends the carry.
unfoldable pub negate : Digital → Digital
negate d =
    let negated = negate_digits d.digits in
    record d { digits = negated.0; negative = if negated.1 then d.negative else not d.negative }

pub data CmpType : Type 0 where
  greater : CmpType
  geq : CmpType
  eq : CmpType

unfoldable pub is_eq : CmpType → Bool
is_eq greater = false
is_eq geq = false
is_eq eq = true

unfoldable pub is_greater : CmpType → Bool
is_greater greater = true
is_greater geq = false
is_greater eq = false

-- The loop over the digits of both, and the result behind it.
unfoldable pub cmp_digits : CmpType → Bool → List ℕ → List ℕ → Bool
cmp_digits cmp_t negative (x ∷ xs) (y ∷ ys) =
    let rest = cmp_digits cmp_t negative xs ys in
    if ltb y x
    then not (is_eq cmp_t) && not negative
    else if ltb x y
    then not (is_eq cmp_t) && negative
    else rest
cmp_digits cmp_t negative _ _ = not (is_greater cmp_t)

unfoldable pub cmp : Digital → Digital → CmpType → Bool
cmp d other cmp_t =
    if (d.negative && not other.negative) || (not d.negative && other.negative)
    then not (is_eq cmp_t) && other.negative
    else if not (d.exponent ≤?ℤ other.exponent)
    then not (is_eq cmp_t) && not d.negative
    else if not (d.exponent ≤?ℤ other.exponent)
    then not (is_eq cmp_t) && d.negative
    else if ltb (length other.digits) (length d.digits)
    then not (is_eq cmp_t) && not d.negative
    else if ltb (length d.digits) (length other.digits)
    then not (is_eq cmp_t) && d.negative
    else cmp_digits cmp_t d.negative d.digits other.digits
