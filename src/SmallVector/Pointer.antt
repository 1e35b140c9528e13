-- ===== src/SmallVector/Pointer.antt =====
-- `IteratorTemplate` of src/smallvector.hpp: a pointer into `arr` or into `data`.
use corecommon.Common.{
  ℕ, zero, suc, ◌+◌, ◌-◌, ℤ, pos, negsuc, ◌-ℤ◌, neg, Bool, false, ◌&&◌, Option, none, some, get_or,
  set, leb, ltb, ◌==◌, if◌then◌else◌,
}
use corecommon.SmallVector.Buffer.{SmallVector, min_capacity}

pub data Ptr : Type 0 where
  in_arr : ℕ → Ptr
  in_data : ℕ → Ptr

module _ {ℓ} {T : Type ℓ} where
  -- The index of the element that a pointer stands at.
  abbrev pub position : SmallVector T → Ptr → ℕ
  position v (in_arr i) = i
  position v (in_data i) = min_capacity v + i

  abbrev pub begin : SmallVector T → Ptr
  begin v = in_arr 0

  unfoldable pub end : SmallVector T → Ptr
  end v = if leb (min_capacity v) v.len then in_data (v.len - min_capacity v) else in_arr v.len

  abbrev pub in_small_buf : SmallVector T → Ptr → Bool
  in_small_buf v (in_arr i) = ltb i (min_capacity v)
  in_small_buf v (in_data i) = false

  -- `operator++`
  unfoldable pub increment : SmallVector T → Ptr → Ptr
  increment v (in_arr i) = if i + 1 == min_capacity v then in_data 0 else in_arr (i + 1)
  increment v (in_data i) = in_data (i + 1)

  -- `operator--`
  unfoldable pub decrement : SmallVector T → Ptr → Ptr
  decrement v (in_data zero) = in_arr (min_capacity v - 1)
  decrement v (in_data (suc i)) = in_data i
  decrement v (in_arr i) = in_arr (i - 1)

  -- The branches of `operator+=` for a distance that is not negative.
  unfoldable pub advance : SmallVector T → Ptr → ℕ → Ptr
  advance v (in_arr i) d =
      if in_small_buf v (in_arr i) && leb (min_capacity v - i) d
      then in_data (d - (min_capacity v - i))
      else in_arr (i + d)
  advance v (in_data i) d = in_data (i + d)

  -- The branches of `operator-=` for a distance that is not negative.
  unfoldable pub retreat : SmallVector T → Ptr → ℕ → Ptr
  retreat v (in_arr i) d = in_arr (i - d)
  retreat v (in_data i) d = if ltb i d then in_arr (min_capacity v + i - d) else in_data (i - d)

  -- `operator+=`. The first test fails for a negative distance, and the pointer moves inside its own
  -- space; one that leaves it at the front, as `data-1` does, has no result.
  unfoldable pub plus : SmallVector T → Ptr → ℤ → Option Ptr
  plus v p (pos d) = some (advance v p d)
  plus v (in_arr i) (negsuc d) = if ltb d i then some (in_arr (i - (d + 1))) else none
  plus v (in_data i) (negsuc d) = if ltb d i then some (in_data (i - (d + 1))) else none

  -- `operator-=`. For a negative distance the pointer moves on inside its own space, and not from
  -- `arr` into `data`; past the end of `arr` it has no result, like in front of `arr`.
  unfoldable pub minus : SmallVector T → Ptr → ℤ → Option Ptr
  minus v p (pos d) = if leb d (position v p) then some (retreat v p d) else none
  minus v (in_arr i) (negsuc d) =
      if leb (i + (d + 1)) (min_capacity v) then some (in_arr (i + (d + 1))) else none
  minus v (in_data i) (negsuc d) = some (in_data (i + (d + 1)))

  -- The difference of two iterators.
  unfoldable pub distance : SmallVector T → Ptr → Ptr → ℤ
  distance v (in_arr i) (in_arr j) = pos i -ℤ pos j
  distance v (in_arr i) (in_data j) = neg (pos (min_capacity v - i + j))
  distance v (in_data i) (in_arr j) = pos (i + (min_capacity v - j))
  distance v (in_data i) (in_data j) = pos i -ℤ pos j

  -- `operator>=`, the only comparison that is not a negation of another or strict.
  unfoldable pub at_least : SmallVector T → Ptr → Ptr → Bool
  at_least v (in_arr i) (in_arr j) = leb j i
  at_least v (in_data i) (in_data j) = leb j i
  at_least v p q = in_small_buf v q

  -- `operator>`
  unfoldable pub after : SmallVector T → Ptr → Ptr → Bool
  after v (in_arr i) (in_arr j) = ltb j i
  after v (in_data i) (in_data j) = ltb j i
  after v p q = in_small_buf v q

  -- `*ptr`
  abbrev pub read : T → SmallVector T → Ptr → T
  read blank v (in_arr i) = get_or v.arr i blank
  read blank v (in_data i) = get_or v.heap i blank

  abbrev pub write : SmallVector T → Ptr → T → SmallVector T
  write v (in_arr i) x = record v { arr = set v.arr i x }
  write v (in_data i) x = record v { heap = set v.heap i x }
