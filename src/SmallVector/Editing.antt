-- ===== src/SmallVector/Editing.antt =====
-- `make_space`, `insert`, `push_back`, `erase`, `pop_back`, `resize` and `clear` of
-- src/smallvector.hpp.
use corecommon.Common.{ℕ, zero, suc, ◌+◌, ◌-◌, ◌%◌, ◌^◌, leb, if◌then◌else◌}
use corecommon.SmallVector.Buffer.{SmallVector, min_capacity, reserve}
use corecommon.SmallVector.Pointer.{
  Ptr, in_arr, in_data, begin, end, increment, decrement, advance, retreat, read, write, position,
}

module _ {ℓ} {T : Type ℓ} (blank : T) where
  -- `std::move` of a number of elements, from the first on.
  unfoldable pub move_forward : ℕ → Ptr → Ptr → SmallVector T → SmallVector T
  move_forward zero from to v = v
  move_forward (suc n) from to v =
      move_forward n (increment v from) (increment v to) (write v to (read blank v from))

  -- `std::move_backward` of a number of elements, from the last on.
  unfoldable pub move_backward : ℕ → Ptr → Ptr → SmallVector T → SmallVector T
  move_backward zero from to v = v
  move_backward (suc n) from to v =
      let from' = decrement v from in
      let to' = decrement v to in move_backward n from' to' (write v to' (read blank v from'))

  -- `make_space`: the vector with `count` places at `where`.
  unfoldable pub make_space : SmallVector T → Ptr → ℕ → SmallVector T
  make_space v (in_data off) count =
      let v' =
        reserve blank ((v.len + count) % 2 ^ 64) (record v { len = (v.len + count) % 2 ^ 64 }) in
      if leb (v'.len - count - min_capacity v') off
      then v'
      else move_forward count (in_data off) (in_data (off + count)) v'
  make_space v (in_arr i) count =
      let v' =
        reserve blank ((v.len + count) % 2 ^ 64) (record v { len = (v.len + count) % 2 ^ 64 }) in
      let last = retreat v' (end v') count in move_backward (position v' last - i) last (end v') v'

  -- `insert` of one element.
  unfoldable pub insert : SmallVector T → Ptr → T → SmallVector T
  insert v at x = write (make_space v at 1) at x

  -- `insert` of copies of an element.
  unfoldable pub fill : ℕ → SmallVector T → Ptr → T → SmallVector T
  fill zero v at x = v
  fill (suc n) v at x = fill n (write v at x) (increment v at) x

  unfoldable pub insert_copies : SmallVector T → Ptr → ℕ → T → SmallVector T
  insert_copies v at count x = fill count (make_space v at count) at x

  unfoldable pub push_back : SmallVector T → T → SmallVector T
  push_back v x = insert v (end v) x

  -- `erase`, for elements that need no destructor.
  unfoldable pub erase : SmallVector T → Ptr → Ptr → SmallVector T
  erase v from to =
      let v' = move_forward (position v (end v) - position v to) to from v in
      record v' { len = v'.len - (position v to - position v from) }

  unfoldable pub pop_back : SmallVector T → SmallVector T
  pop_back v = erase v (retreat v (end v) 1) (end v)

  unfoldable pub resize : ℕ → SmallVector T → SmallVector T
  resize n v =
      if leb n v.len
      then erase v (advance v (begin v) n) (end v)
      else record (reserve blank n v) { len = n }

  abbrev pub clear : SmallVector T → SmallVector T
  clear v = record v { len = 0 }
