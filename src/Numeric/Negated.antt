-- ===== src/Numeric/Negated.antt =====
-- What `negate` and `cmp` of src/numeric.cpp do to the numbers that the digits are.
use native.Mathlib.Nat.{pow-suc}
use corecommon.Common.{
  ℕ, suc, ◌+◌, ◌-◌, ◌*◌, ◌%◌, ◌^◌, ◌<◌, ◌≡◌, ◌≢◌, refl, ap, ◌∙◌, Bool, true, false, not, List, [],
  ◌∷◌, length, arith, ◌==◌, if◌then◌else◌, Bool-cases, inl, inr,
}
use corecommon.Numeric.Digits.{Digital}
use corecommon.Numeric.Carried.{AreDigits, number, flag, sign}
use corecommon.Numeric.Signs.{negate_digits, negate}

-- A place of a number and of its negative.
opposite : (P n m d s : ℕ) → s + d ≡ 65536 → n + m ≡ 0 → s * P + n + (d * P + m) ≡ P * 65536
opposite P n m d s e f =
    let g : (s + d) * P ≡ 65536 * P = ap (λ z. z * P) e in
    let h : (s + d) * P ≡ s * P + d * P = grind arith in omega arith

inverted : (P n m d s : ℕ) → s + d + 1 ≡ 65536 → n + m ≡ P → s * P + n + (d * P + m) ≡ P * 65536
inverted P n m d s e f =
    let g : (s + d + 1) * P ≡ 65536 * P = ap (λ z. z * P) e in
    let h : (s + d + 1) * P ≡ s * P + d * P + P = grind arith in omega arith

negate_digits-number :
    (ds : List ℕ)
    → AreDigits ds
    → (length (negate_digits ds).0 ≡ length ds)
      × (number (negate_digits ds).0 + number ds + flag (negate_digits ds).1 * 65536 ^ length ds
          ≡ 65536 ^ length ds)
unfolding negate_digits AreDigits number flag
negate_digits-number [] h = (refl, omega arith)
negate_digits-number (d ∷ ds) h =
    let rest = negate_digits-number ds h.1 in
    elim (Bool-cases (negate_digits ds).1) [
      | inl carried ↦
          let below = rw (carried) at rest.1 in
          elim (Bool-cases (d == 0)) [
            | inl none ↦
                let zero_digit : d ≡ 0 = ground arith in
                (
                  rw (carried, none) (ap suc rest.0),
                  rw (carried, none, zero_digit, rest.0) (omega (arith, below)),
                )
            | inr some_digit ↦
                let positive : d ≢ 0 = ground arith in
                (
                  rw (carried, some_digit) (ap suc rest.0),
                  rw (carried, some_digit, rest.0, pow-suc 65536 (length ds))
                      (omega (
                        arith,
                        opposite (65536 ^ length ds) (number (negate_digits ds).0) (number ds) d
                            ((65536 - d) % 65536) (omega (arith, h.0)) (omega (arith, below)),
                      )),
                )
          ]
      | inr ended ↦
          let below = rw (ended) at rest.1 in
          (
            rw (ended) (ap suc rest.0),
            rw (ended, rest.0, pow-suc 65536 (length ds))
                (omega (
                  arith,
                  inverted (65536 ^ length ds) (number (negate_digits ds).0) (number ds) d
                      (65535 - d) (omega (arith, h.0)) (omega (arith, below)),
                )),
          )
    ]

negate_digits-carry : (ds : List ℕ) → AreDigits ds → 0 < number ds → (negate_digits ds).1 ≡ false
unfolding flag
negate_digits-carry ds h positive = elim (Bool-cases (negate_digits ds).1) [
  | inl carried ↦
      let sum = rw (carried) at (negate_digits-number ds h).1 in absurd (omega (arith, sum))
  | inr ended ↦ ended
]

signs_both : (b : Bool) (n : ℕ) → n ≡ (if b then n else 0) + (if not b then n else 0)
signs_both true n = omega arith
signs_both false n = omega arith

-- `negate` gives the negative of a number whose digits are not all 0: the numbers that the digits
-- are before and after add up to what two's complement takes off before and after. The sign is
-- flipped and the exponent and the number of digits stay. The hypothesis: the digits are below
-- 65536.
pub negate-number :
    (d : Digital)
    → AreDigits d.digits
    → 0 < number d.digits
    → (number (negate d).digits + number d.digits ≡ sign d + sign (negate d))
      × ((negate d).negative ≡ not d.negative)
      × ((negate d).exponent ≡ d.exponent)
      × (length (negate d).digits ≡ length d.digits)
unfolding negate sign flag
negate-number d h positive =
    let ended = negate_digits-carry d.digits h positive in
    let (same, sum) = negate_digits-number d.digits h in
    let below = rw (ended) at sum in
    (
      rw (ended, same) (omega (arith, below) ∙ signs_both d.negative (65536 ^ length d.digits)),
      rw (ended) refl,
      refl,
      same,
    )
