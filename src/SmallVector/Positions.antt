-- ===== src/SmallVector/Positions.antt =====
-- The iterators of src/smallvector.hpp count like indices.
use corecommon.Common.{
  ℕ, zero, suc, ◌+◌, ◌-◌, ◌≤◌, ◌<◌, ◌&&◌, leb, ltb, ◌==◌, ◌≡◌, refl, arith, if-cases,
}
use corecommon.SmallVector.Buffer.{SmallVector, min_capacity}
use corecommon.SmallVector.Pointer.{
  Ptr, in_arr, in_data, end, in_small_buf, increment, decrement, advance, retreat, position,
}

module _ {ℓ} {T : Type ℓ} where
  -- A pointer into `arr` does not stand at its end.
  abbrev pub IsPlaced : SmallVector T → Ptr → Type 0
  IsPlaced v (in_arr i) = i < min_capacity v
  IsPlaced v (in_data i) = 0 ≤ i

  pub end-position : (v : SmallVector T) → IsPlaced v (end v) × (position v (end v) ≡ v.len)
  unfolding end
  end-position v =
      if-cases (λ p. IsPlaced v p × (position v p ≡ v.len)) (leb (min_capacity v) v.len) _ _
        (λ e. (omega arith, ground (arith, e))) (λ e. (ground (arith, e), refl))

  pub increment-position :
      (v : SmallVector T) (p : Ptr)
      → IsPlaced v p
      → IsPlaced v (increment v p) × (position v (increment v p) ≡ position v p + 1)
  unfolding increment
  increment-position v (in_arr i) h =
      if-cases (λ p. IsPlaced v p × (position v p ≡ i + 1)) (i + 1 == min_capacity v) _ _
        (λ e. (omega arith, ground (arith, e))) (λ e. (ground (arith, e), refl))
  increment-position v (in_data i) h = (omega arith, omega arith)

  pub decrement-position :
      (v : SmallVector T) (p : Ptr)
      → IsPlaced v p
      → 0 < position v p
      → IsPlaced v (decrement v p) × (position v (decrement v p) + 1 ≡ position v p)
  unfolding decrement
  decrement-position v (in_arr i) h lt = (omega arith, omega arith)
  decrement-position v (in_data zero) h lt = (omega arith, omega arith)
  decrement-position v (in_data (suc i)) h lt = (omega arith, omega arith)

  pub advance-position :
      (v : SmallVector T) (p : Ptr) (d : ℕ)
      → IsPlaced v p
      → IsPlaced v (advance v p d) × (position v (advance v p d) ≡ position v p + d)
  unfolding advance
  advance-position v (in_arr i) d h =
      if-cases (λ p. IsPlaced v p × (position v p ≡ i + d))
        (in_small_buf v (in_arr i) && leb (min_capacity v - i) d) _ _
        (λ e. (omega arith, ground (arith, e, h))) (λ e. (ground (arith, e, h), refl))
  advance-position v (in_data i) d h = (omega arith, omega arith)

  pub retreat-position :
      (v : SmallVector T) (p : Ptr) (d : ℕ)
      → IsPlaced v p
      → d ≤ position v p
      → IsPlaced v (retreat v p d) × (position v (retreat v p d) ≡ position v p - d)
  unfolding retreat
  retreat-position v (in_arr i) d h le = (omega arith, omega arith)
  retreat-position v (in_data i) d h le =
      if-cases (λ p. IsPlaced v p × (position v p ≡ min_capacity v + i - d)) (ltb i d) _ _
        (λ e. (ground (arith, e, le), refl)) (λ e. (omega arith, ground (arith, e)))

  -- A move by n places in front of the own space of the pointer, and by n places past its end.
  abbrev pub LeavesFront : SmallVector T → Ptr → ℕ → Type 0
  LeavesFront v (in_arr i) n = i < n
  LeavesFront v (in_data i) n = i < n

  abbrev pub LeavesBack : SmallVector T → Ptr → ℕ → Type 0
  LeavesBack v (in_arr i) n = min_capacity v < i + n
  LeavesBack v (in_data i) n = ⊥
