-- ===== src/SmallVector/Contents.antt =====
-- The elements of a vector of src/smallvector.hpp, and what a pointer reads and writes of them.
use corecommon.Common.{
  ℕ, zero, suc, ◌+◌, ◌≤◌, ◌<◌, ◌^◌, List, ◌++◌, length, get_or, set, take, ◌≡◌, refl, sym, ap, ◌∙◌,
  arith, length-set, get_or-append_left, get_or-append_right, set-append_left, set-append_right,
}
use corecommon.SmallVector.Buffer.{SmallVector, min_capacity}
use corecommon.SmallVector.Pointer.{Ptr, in_arr, in_data, increment, read, write, position}
use corecommon.SmallVector.Editing.{move_forward}
use corecommon.SmallVector.Positions.{IsPlaced, increment-position}

module _ {ℓ} {T : Type ℓ} where
  -- `arr` and `data` in one piece.
  abbrev pub space : SmallVector T → List T
  space v = v.arr ++ v.heap

  abbrev pub contents : SmallVector T → List T
  contents v = take v.len (space v)

  pub record IsValid (v : SmallVector T) : Type 0 where
    pub some_arr : 0 < min_capacity v
    pub all_heap : length v.heap ≡ v.cap
    pub inside : v.len ≤ min_capacity v + v.cap
    pub small : min_capacity v + v.cap + 1 < 2 ^ 64

  pub read-space :
      (blank : T) (v : SmallVector T) (p : Ptr)
      → IsPlaced v p
      → read blank v p ≡ get_or (space v) (position v p) blank
  read-space blank v (in_arr i) h = sym (get_or-append_left v.arr v.heap i blank h)
  read-space blank v (in_data i) h = sym (get_or-append_right v.arr v.heap i blank)

  pub space-write :
      (v : SmallVector T) (p : Ptr) (x : T)
      → IsPlaced v p
      → space (write v p x) ≡ set (space v) (position v p) x
  space-write v (in_arr i) x h = sym (set-append_left v.arr v.heap i x h)
  space-write v (in_data i) x h = sym (set-append_right v.arr v.heap i x)

  pub min_capacity-write :
      (v : SmallVector T) (p : Ptr) (x : T) → min_capacity (write v p x) ≡ min_capacity v
  min_capacity-write v (in_arr i) x = length-set v.arr i x
  min_capacity-write v (in_data i) x = refl

  -- A write moves no pointer.
  pub write-IsPlaced :
      (v : SmallVector T) (p q : Ptr) (x : T) → IsPlaced v q → IsPlaced (write v p x) q
  write-IsPlaced v p (in_arr i) x h = omega (arith, min_capacity-write v p x)
  write-IsPlaced v p (in_data i) x h = omega arith

  pub position-write :
      (v : SmallVector T) (p q : Ptr) (x : T) → position (write v p x) q ≡ position v q
  position-write v p (in_arr i) x = refl
  position-write v p (in_data i) x = omega (arith, min_capacity-write v p x)

  -- The move of elements towards the front, on a list.
  abbrev pub slide : T → ℕ → (from to : ℕ) → List T → List T
  slide blank zero from to xs = xs
  slide blank (suc n) from to xs =
      slide blank n (from + 1) (to + 1) (set xs to (get_or xs from blank))

  pub space-move_forward :
      (blank : T) (n : ℕ) (p q : Ptr) (v : SmallVector T)
      → IsPlaced v p
      → IsPlaced v q
      → space (move_forward blank n p q v) ≡ slide blank n (position v p) (position v q) (space v)
  unfolding move_forward
  space-move_forward blank zero p q v h g = refl
  space-move_forward blank (suc n) p q v h g =
      let x = read blank v p in
      let w = write v q x in
      let (hp, ep) = increment-position v p h in
      let (hq, eq) = increment-position v q g in
      space-move_forward blank n (increment v p) (increment v q) w
        (write-IsPlaced v q (increment v p) x hp) (write-IsPlaced v q (increment v q) x hq)
      ∙ (ap (λ i. slide blank n i (position w (increment v q)) (space w))
            (position-write v q (increment v p) x ∙ ep)
          ∙ (ap (λ i. slide blank n (position v p + 1) i (space w))
                (position-write v q (increment v q) x ∙ eq)
              ∙ (ap (slide blank n (position v p + 1) (position v q + 1)) (space-write v q x g)
                  ∙ ap
                      (λ y.
                        slide blank n (position v p + 1) (position v q + 1)
                          (set (space v) (position v q) y))
                      (read-space blank v p h))))

  pub len-move_forward :
      (blank : T) (n : ℕ) (p q : Ptr) (v : SmallVector T) → (move_forward blank n p q v).len ≡ v.len
  unfolding move_forward
  len-move_forward blank zero p q v = refl
  len-move_forward blank (suc n) p (in_arr i) v =
      len-move_forward blank n (increment v p) (increment v (in_arr i)) _
  len-move_forward blank (suc n) p (in_data i) v =
      len-move_forward blank n (increment v p) (increment v (in_data i)) _
