-- ===== src/HashMap/Coverage.antt =====
-- The steps of a probe add up to triangular numbers, which reach every group of a table whose size
-- is a power of two.
use native.Mathlib.Nat.{
  mod-eq_of_lt, mod-add-mod, mod-lt, pow-suc, div-add-mod, add-zero, mul-add-mod_self_left,
  add-mod-mod, add-mod_right,
}
use corecommon.Common.{
  ℕ, zero, suc, ◌+◌, ◌-◌, ◌*◌, ◌/◌, ◌%◌, ◌^◌, ◌≤◌, ◌<◌, ◌≡◌, ◌≢◌, sym, ap, ◌∙◌, arith, ℕ_discrete,
  length, ◌⊎◌, inl, inr,
}
use corecommon.HashMap.Table.{Key, Value, HashMap, byte, do_hash}
use corecommon.HashMap.Probing.{next_index}
use corecommon.HashMap.Matching.{walk}
use corecommon.HashMap.Valid.{HasRoom}

-- 0 + 1 + ... + j
abbrev pub triangle : ℕ → ℕ
triangle zero = 0
triangle (suc j) = triangle j + suc j

pub walk-triangle :
    (size i j : ℕ) → i < size → size ≤ 2 ^ 31 → j < size → walk size i j ≡ (i + triangle j) % size
unfolding next_index
walk-triangle size i zero hi hs hj = sym (rw add-zero (mod-eq_of_lt hi))
walk-triangle size i (suc j) hi hs hj =
    let before = walk-triangle size i j hi hs (omega arith) in
    let bound = mod-lt (i + triangle j) {m = size} (omega arith) in
    let step : suc j % 2 ^ 32 ≡ suc j = mod-eq_of_lt (omega arith) in
    let small : ((i + triangle j) % size + suc j) % 2 ^ 32 ≡ (i + triangle j) % size + suc j =
      mod-eq_of_lt (omega arith) in
    rw (step, before, small, mod-add-mod) (ap (λ t. t % size) (omega arith))

twice_triangle : (j : ℕ) → 2 * triangle j ≡ j * (j + 1)
twice_triangle zero = omega arith
twice_triangle (suc j) = omega (arith, twice_triangle j)

-- The mirror image of a step, at a table of 2 * half groups, is half a table away.
mirror :
    (half a j : ℕ)
    → a + j + 1 ≡ 2 * half
    → triangle a + half + 2 * half * j ≡ 2 * half * half + triangle j
mirror half a j e = omega (
  arith,
  twice_triangle a,
  twice_triangle j,
  ap (λ (t : ℕ). t * half) e,
  ap (λ (t : ℕ). t * j) e,
  ap (λ (t : ℕ). t * a) e,
)

same_rest : (n a b y z : ℕ) → n * a + y ≡ n * b + z → y < n → z < n → y ≡ z
same_rest n a b y z e hy hz =
    sym (mod-eq_of_lt hy)
    ∙ (sym (mul-add-mod_self_left n a y)
        ∙ (ap (λ t. t % n) e ∙ (mul-add-mod_self_left n b z ∙ mod-eq_of_lt hz)))

-- Two numbers below 2 * half with one remainder by half.
half_apart :
    (half x r : ℕ)
    → x < 2 * half
    → r < 2 * half
    → x % half ≡ r % half
    → x ≢ r
    → (x ≡ r + half) ⊎ (x + half ≡ r)
half_apart half x r hx hr e ne = grind arith

mod_of_double : (half n : ℕ) → n % (2 * half) % half ≡ n % half
mod_of_double half n =
    sym (mul-add-mod_self_left half (2 * (n / (2 * half))) (n % (2 * half)))
    ∙ ap (λ t. t % half) (omega (arith, div-add-mod n (2 * half)))

mirror_step :
    (half j r q x p y : ℕ)
    → triangle j ≡ 2 * half * q + x
    → triangle (2 * half - 1 - j) ≡ 2 * half * p + y
    → j < half
    → r < 2 * half
    → y < 2 * half
    → (x ≡ r + half) ⊎ (x + half ≡ r)
    → y ≡ r
mirror_step half j r q x p y ej es hj hr hy (inl e) =
    let m = mirror half (2 * half - 1 - j) j (omega arith) in
    same_rest (2 * half) (p + j) (half + q) y r (omega arith) hy hr
mirror_step half j r q x p y ej es hj hr hy (inr e) =
    let m = mirror half (2 * half - 1 - j) j (omega arith) in
    same_rest (2 * half) (p + j + 1) (half + q) y r (omega arith) hy hr

-- Of a step and its mirror image one is at the wanted group, when the step is at it modulo half.
choose_step :
    (half j r : ℕ)
    → j < half
    → r < 2 * half
    → triangle j % half ≡ r % half
    → (s : ℕ) × (s < 2 * half) × (triangle s % (2 * half) ≡ r)
choose_step half j r hj hr e = elim (ℕ_discrete (triangle j % (2 * half)) r) [
  | yes here ↦ (j, omega arith, here)
  | no there ↦ (
    2 * half - 1 - j,
    omega arith,
    (let t = triangle j in
        let s = triangle (2 * half - 1 - j) in
        let n = 2 * half in
        mirror_step half j r (t / n) (t % n) (s / n) (s % n) (sym (div-add-mod t n))
          (sym (div-add-mod s n)) hj hr (mod-lt s (omega arith))
          (half_apart half (t % n) r (mod-lt t (omega arith)) hr (mod_of_double half t ∙ e) there)),
  )
]

pub covers : (e r : ℕ) → r < 2 ^ e → (j : ℕ) × (j < 2 ^ e) × (triangle j % 2 ^ e ≡ r)
covers zero r h = (0, omega arith, omega arith)
covers (suc e) r h =
    let pow : 2 ^ suc e ≡ 2 * 2 ^ e = omega (arith, pow-suc 2 e) in
    let pos : 0 < 2 ^ e = omega arith in
    let (j, hj, at) = covers e (r % 2 ^ e) (mod-lt r pos) in
    rw pow (choose_step (2 ^ e) j r hj (omega arith) at)

aim : (n i0 i t : ℕ) → i0 < n → i < n → t % n ≡ (i + n - i0) % n → (i0 + t) % n ≡ i
aim n i0 i t h0 hi e =
    let sum : i0 + (i + n - i0) ≡ i + n = omega arith in
    sym (add-mod-mod i0 t n)
    ∙ (ap (λ x. (i0 + x) % n) e
        ∙ (add-mod-mod i0 (i + n - i0) n
            ∙ (ap (λ x. x % n) sum ∙ (add-mod_right i n ∙ mod-eq_of_lt hi))))

module _ {ℓ} {K V : Type ℓ} ⦃key : Key K⦄ ⦃value : Value V⦄ where
  -- In a table of 2 ^ e groups, at most 2 ^ 31, one empty byte anywhere is reached by the walk of
  -- every key, in fewer steps than there are groups.
  pub HasRoom-anywhere :
      (m : HashMap K V) (k : K) (e i c : ℕ)
      → length m.control_bytes ≡ 2 ^ e
      → length m.control_bytes ≤ 2 ^ 31
      → i < length m.control_bytes
      → c < 16
      → byte m.control_bytes i c ≡ 0
      → HasRoom m k (length m.control_bytes)
  HasRoom-anywhere m k e i c pow small hi hc z =
      let n = length m.control_bytes in
      let i0 = do_hash k / 2 ^ 8 % n in
      let h0 : i0 < n = mod-lt (do_hash k / 2 ^ 8) (omega arith) in
      let r : (i + n - i0) % n < n = mod-lt (i + n - i0) (omega arith) in
      let (j, hj, at) = covers e ((i + n - i0) % n) (omega arith) in
      let near : j < n = omega arith in
      let on : walk n i0 j ≡ i =
        walk-triangle n i0 j h0 small near
        ∙ aim n i0 i (triangle j) h0 hi (ap (λ x. triangle j % x) pow ∙ at) in
      record { step = j; soon = near; c = c; slot = hc; empty = rw on z }
