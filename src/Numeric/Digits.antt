-- ===== src/Numeric/Digits.antt =====
-- `Digital` of src/numeric.hpp and its digit operations of src/numeric.cpp.
use corecommon.Common.{
  ℕ, zero, suc, ◌+◌, ◌-◌, ◌%◌, ◌^◌, Bool, true, false, ◌&&◌, List, [], ◌∷◌, ◌++◌, length, get_or,
  replicate, ltb, ◌==◌, if◌then◌else◌, ℤ, pos, negsuc, ◌+ℤ◌, ◌-ℤ◌,
}

pub record Digital : Type 0 where
  pub negative : Bool
  pub exponent : ℤ
  pub digits : List ℕ

-- An `int` as an `unsigned`.
unfoldable pub unsigned : ℤ → ℕ
unsigned (pos n) = n % 2 ^ 32
unsigned (negsuc n) = 2 ^ 32 - 1 - n % 2 ^ 32

-- `digits.back()`; of no digits, 0.
unfoldable pub back : List ℕ → ℕ
back digits = get_or digits (length digits - 1) 0

-- The digits inserted in front where `exponent<e`, that is where exponent - e is negative.
unfoldable pub pad_front : ℤ → ℤ → Digital → Digital
pad_front (pos n) e d = d
pad_front (negsuc n) e d =
    let filler : ℕ = if d.negative && ltb 0 (back d.digits) then 65535 else 0 in
    record d { exponent = e; digits = replicate (n + 1) filler ++ d.digits }

unfoldable pub pad_back : ℤ → Digital → Digital
pad_back end d =
    let other_offset = unsigned (d.exponent -ℤ end +ℤ pos 1) in
    if ltb (length d.digits) other_offset
    then record d { digits = d.digits ++ replicate (other_offset - length d.digits) 0 }
    else d

unfoldable pub pad : ℤ → ℤ → Digital → Digital
pad e end d = pad_back end (pad_front (d.exponent -ℤ e) e d)

-- The digits without those in front that only repeat the sign.
unfoldable pub trim_front : Bool → List ℕ → List ℕ
trim_front negative [] = []
trim_front negative (x ∷ []) = x ∷ []
trim_front negative (x ∷ y ∷ rest) =
    let trimmed = trim_front negative (y ∷ rest) in
    if x == (if negative then 65535 else 0) then trimmed else x ∷ y ∷ rest

unfoldable pub drop_zeros : List ℕ → List ℕ
drop_zeros [] = []
drop_zeros (x ∷ xs) =
    let rest = drop_zeros xs in if x == 0 && length rest == 0 then [] else x ∷ rest

-- The zeros behind the last digit that is not 0; the first digit stays.
unfoldable pub trim_back : List ℕ → List ℕ
trim_back [] = []
trim_back (x ∷ xs) = x ∷ drop_zeros xs

unfoldable pub trim : Digital → Digital
trim d =
    let rest = trim_front d.negative d.digits in
    record d {
      exponent = d.exponent -ℤ pos (length d.digits - length rest);
      digits = trim_back rest;
    }

-- The digit at a place is raised and the carry goes to the front; with the carry that is left.
unfoldable pub add_at : ℕ → ℕ → List ℕ → List ℕ × Bool
add_at k x [] = ([], false)
add_at zero x (d ∷ ds) = ((d + x) % 2 ^ 16 ∷ ds, ltb ((d + x) % 2 ^ 16) x)
add_at (suc k) x (d ∷ ds) =
    let rest = add_at k x ds in
    if rest.1 then ((d + 1) % 2 ^ 16 ∷ rest.0, (d + 1) % 2 ^ 16 == 0) else (d ∷ rest.0, false)

unfoldable pub carry_out : Bool → Digital → Digital
carry_out false d = d
carry_out true d =
    if d.negative
    then record d { negative = false }
    else record d { exponent = d.exponent +ℤ pos 1; digits = 1 ∷ d.digits }

unfoldable pub add : ℕ → ℤ → Bool → Digital → Digital
add x e do_trim d =
    let padded = pad e e d in
    let sum = add_at (unsigned (padded.exponent -ℤ e)) x padded.digits in
    let carried = carry_out sum.1 (record padded { digits = sum.0 }) in
    if do_trim then trim carried else carried

unfoldable pub sub_at : ℕ → ℕ → List ℕ → List ℕ × Bool
sub_at k x [] = ([], false)
sub_at zero x (d ∷ ds) = ((d + 2 ^ 16 - x) % 2 ^ 16 ∷ ds, ltb d x)
sub_at (suc k) x (d ∷ ds) =
    let rest = sub_at k x ds in
    if rest.1 then ((d + 2 ^ 16 - 1) % 2 ^ 16 ∷ rest.0, d == 0) else (d ∷ rest.0, false)

unfoldable pub borrow_out : Bool → Digital → Digital
borrow_out false d = d
borrow_out true d =
    if d.negative
    then record d { exponent = d.exponent +ℤ pos 1; digits = 65534 ∷ d.digits }
    else record d { negative = true }

unfoldable pub sub : ℕ → ℤ → Bool → Digital → Digital
sub x e do_trim d =
    let padded = pad e e d in
    let difference = sub_at (unsigned (padded.exponent -ℤ e)) x padded.digits in
    let borrowed = borrow_out difference.1 (record padded { digits = difference.0 }) in
    if do_trim then trim borrowed else borrowed
