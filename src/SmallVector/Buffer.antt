-- ===== src/SmallVector/Buffer.antt =====
-- `SmallVector` of src/smallvector.hpp: its space and the access by index.
use corecommon.Common.{
  ℕ, ◌+◌, ◌-◌, ◌%◌, ◌^◌, List, [], ◌++◌, length, get_or, take, replicate, leb, if◌then◌else◌,
}

-- `arr` has `MinCapacity` elements, `heap` (`data` in the code) has `cap`.
pub record SmallVector {ℓ} (T : Type ℓ) : Type ℓ where
  pub arr : List T
  pub heap : List T
  pub cap : ℕ
  pub len : ℕ

module _ {ℓ} {T : Type ℓ} where
  abbrev pub min_capacity : SmallVector T → ℕ
  min_capacity v = length v.arr

  -- `reserve`. `blank` is what a new element holds before it is assigned.
  unfoldable pub reserve : T → ℕ → SmallVector T → SmallVector T
  reserve blank n v = if leb n ((v.cap + min_capacity v) % 2 ^ 64) then v else record v {
    heap = take v.cap v.heap ++ replicate (n - min_capacity v - v.cap) blank;
    cap = n - min_capacity v;
  }

  -- `SmallVector(n)`
  unfoldable pub with_capacity : T → (min_capacity : ℕ) → ℕ → SmallVector T
  with_capacity blank min_capacity n =
      reserve blank n (record { arr = replicate min_capacity blank; heap = []; cap = 0; len = 0 })

  -- `operator[]`
  unfoldable pub element : T → SmallVector T → ℕ → T
  element blank v i =
      if leb (min_capacity v) i
      then get_or v.heap (i - min_capacity v) blank
      else get_or v.arr i blank

  -- `SmallVector(n, x)`
  unfoldable pub filled : T → (min_capacity : ℕ) → ℕ → T → SmallVector T
  filled blank min_capacity n x =
      if leb n min_capacity
      then record {
        arr = replicate n x ++ replicate (min_capacity - n) blank;
        heap = [];
        cap = 0;
        len = n;
      }
      else record {
        arr = replicate min_capacity x;
        heap = replicate (n - min_capacity) x;
        cap = n - min_capacity;
        len = n;
      }
