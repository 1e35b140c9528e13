-- ===== src/Numeric/Compared.antt =====
-- `cmp` of src/numeric.cpp on numbers of one exponent that are not negative.
use native.Mathlib.Nat.{pow-suc, mul-le-mul_right}
use corecommon.Common.{
  ℕ, suc, ◌+◌, ◌*◌, ◌^◌, ◌≤◌, ◌<◌, ◌≡◌, refl, sym, ◌∙◌, Bool, true, false, not, ◌&&◌, List, [], ◌∷◌,
  length, arith, ltb, leb, ◌==◌, Bool-cases, inl, inr, ℤ, pos, negsuc, ◌≤?ℤ◌,
}
use corecommon.Numeric.Digits.{Digital}
use corecommon.Numeric.Carried.{AreDigits, number}
use corecommon.Numeric.Signs.{CmpType, greater, geq, eq, is_eq, is_greater, cmp_digits, cmp}

-- The comparison that each `CmpType` asks for.
unfoldable pub relation : CmpType → ℕ → ℕ → Bool
relation greater n m = ltb m n
relation geq n m = leb m n
relation eq n m = n == m

relation_refl : (t : CmpType) (n : ℕ) → relation t n n ≡ not (is_greater t)
unfolding relation is_greater
relation_refl greater n = ground arith
relation_refl geq n = ground arith
relation_refl eq n = ground arith

relation_above : (t : CmpType) (n m : ℕ) → m < n → relation t n m ≡ not (is_eq t)
unfolding relation is_eq
relation_above greater n m h = ground arith
relation_above geq n m h = ground arith
relation_above eq n m h = ground arith

relation_below : (t : CmpType) (n m : ℕ) → n < m → relation t n m ≡ false
unfolding relation
relation_below greater n m h = ground arith
relation_below geq n m h = ground arith
relation_below eq n m h = ground arith

relation_shift : (t : CmpType) (k n m : ℕ) → relation t (k + n) (k + m) ≡ relation t n m
unfolding relation
relation_shift greater k n m = ground arith
relation_shift geq k n m = ground arith
relation_shift eq k n m = ground arith

number-lt-pow : (ds : List ℕ) → AreDigits ds → number ds < 65536 ^ length ds
unfolding number AreDigits
number-lt-pow [] h = omega arith
number-lt-pow (d ∷ ds) h =
    let below = number-lt-pow ds h.1 in
    let top : d * 65536 ^ length ds ≤ 65535 * 65536 ^ length ds =
      mul-le-mul_right _ (omega (arith, h.0)) in
    rw (pow-suc 65536 (length ds)) (omega arith)

first_digit : (P x y n m : ℕ) → n < P → x < y → x * P + n < y * P + m
first_digit P x y n m h l =
    let a : suc x * P ≤ y * P = mul-le-mul_right P l in
    let b : suc x * P ≡ x * P + P = grind arith in omega arith

both_off : (b : Bool) → (b && not false) ≡ b
both_off true = refl
both_off false = refl

never_on : (b : Bool) → (b && false) ≡ false
never_on true = refl
never_on false = refl

cmp_digits-relation :
    (t : CmpType) (xs ys : List ℕ)
    → length xs ≡ length ys
    → AreDigits xs
    → AreDigits ys
    → cmp_digits t false xs ys ≡ relation t (number xs) (number ys)
unfolding cmp_digits AreDigits number
cmp_digits-relation t [] [] l h k = sym (relation_refl t 0)
cmp_digits-relation t [] (y ∷ ys) l h k = absurd (omega arith)
cmp_digits-relation t (x ∷ xs) [] l h k = absurd (omega arith)
cmp_digits-relation t (x ∷ xs) (y ∷ ys) l h k =
    let same : length xs ≡ length ys = omega (arith, l) in
    elim (Bool-cases (ltb y x)) [
      | inl above ↦
          let more : y * 65536 ^ length ys + number ys < x * 65536 ^ length ys + number xs =
            first_digit _ y x (number ys) (number xs) (number-lt-pow ys k.1) (ground arith) in
          rw (above, same) (both_off (not (is_eq t)) ∙ sym (relation_above t _ _ more))
      | inr kept ↦ elim (Bool-cases (ltb x y)) [
        | inl under ↦
            let less : x * 65536 ^ length ys + number xs < y * 65536 ^ length ys + number ys =
              first_digit _ x y (number xs) (number ys) (rw same at (number-lt-pow xs h.1))
                (ground arith) in
            rw (kept, under, same) (never_on (not (is_eq t)) ∙ sym (relation_below t _ _ less))
        | inr equal ↦
            let digit : x ≡ y = ground arith in
            rw (kept, equal, same, digit)
              (cmp_digits-relation t xs ys same h.1 k.1
                ∙ sym (relation_shift t (y * 65536 ^ length ys) _ _))
      ]
    ]

exponent_le_refl : (e : ℤ) → (e ≤?ℤ e) ≡ true
exponent_le_refl (pos n) = ground arith
exponent_le_refl (negsuc n) = ground arith

-- `cmp` of two numbers that are not negative and have the same exponent and the same number of
-- digits, with any `CmpType`, compares the numbers that the digits are. The hypothesis: the digits
-- are below 65536.
pub cmp-relation :
    (t : CmpType) (a b : Digital)
    → a.negative ≡ false
    → b.negative ≡ false
    → a.exponent ≡ b.exponent
    → length a.digits ≡ length b.digits
    → AreDigits a.digits
    → AreDigits b.digits
    → cmp a b t ≡ relation t (number a.digits) (number b.digits)
unfolding cmp
cmp-relation t a b na nb e l h k =
    let same = cmp_digits-relation t a.digits b.digits l h k in
    let exponents : (a.exponent ≤?ℤ b.exponent) ≡ true = rw (e) (exponent_le_refl b.exponent) in
    let not_longer : ltb (length b.digits) (length a.digits) ≡ false = ground arith in
    let not_shorter : ltb (length a.digits) (length b.digits) ≡ false = ground arith in
    rw (na, nb, exponents, not_longer, not_shorter) same
