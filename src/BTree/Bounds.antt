-- ===== src/BTree/Bounds.antt =====
-- How deep a balanced tree of src/btree.hpp is.
use corecommon.Common.{
  ℕ, zero, suc, ◌+◌, ◌/◌, ◌^◌, ◌≤◌, max, ℤ, pos, negsuc, ◌∷◌, length, length-append, ◌≡◌, refl, sym,
  ap, ◌∙◌, arith,
}
use mathlib.Core.Path.{subst}
use corecommon.BTree.Tree.{Tree, leaf, node, entries}
use corecommon.BTree.Balance.{IsDiff, height, IsAvl}

-- `2 ^ (h / 2)`, by steps of two.
half_power : ℕ → ℕ
half_power zero = 1
half_power (suc zero) = 1
half_power (suc (suc h)) = half_power h + half_power h

half_power_mono : (a : ℕ) → half_power a ≤ half_power (suc a)
unfolding half_power
half_power_mono zero = omega arith
half_power_mono (suc zero) = omega arith
half_power_mono (suc (suc a)) = omega (arith, half_power_mono a)

half_power-eq : (h : ℕ) → half_power h ≡ 2 ^ (h / 2)
unfolding half_power
half_power-eq zero = refl
half_power-eq (suc zero) = refl
half_power-eq (suc (suc h)) =
    let e : suc (suc h) / 2 ≡ suc (h / 2) = omega arith in
    omega (arith, half_power-eq h) ∙ ap (λ n. 2 ^ n) (sym e)

-- Two subtrees of heights that differ by one at most.
join_powers :
    (d : ℤ) (a b m n : ℕ)
    → IsDiff d a b
    → half_power a ≤ m + 1
    → half_power b ≤ n + 1
    → half_power (suc (max a b)) ≤ m + suc n + 1
unfolding half_power
join_powers (pos zero) a b m n (_, e) p q =
    let same : max a b ≡ a = omega arith in
    let other : b ≡ a = omega arith in
    rw (same) (omega (arith, half_power_mono (suc a), subst (λ h. half_power h ≤ n + 1) other q))
join_powers (pos (suc zero)) a b m n (_, e) p q =
    let high : max a b ≡ suc a = omega arith in
    let other : b ≡ suc a = omega arith in
    rw (high) (omega (arith, half_power_mono a, subst (λ h. half_power h ≤ n + 1) other q))
join_powers (negsuc zero) a b m n (_, e) p q =
    let high : max a b ≡ suc b = omega arith in
    let other : a ≡ suc b = omega arith in
    rw (high) (omega (arith, half_power_mono b, subst (λ h. half_power h ≤ m + 1) other p))
join_powers (pos (suc (suc i))) a b m n (le, e) p q = absurd (omega arith)
join_powers (negsuc (suc i)) a b m n (le, e) p q = absurd (omega arith)

module _ {ℓ} {K V : Type ℓ} where
  half_power-entries : (t : Tree K V) → IsAvl t → half_power (height t) ≤ length (entries t) + 1
  unfolding half_power
  half_power-entries leaf avl = omega arith
  half_power-entries (node d x v l r) (diff, al, ar) = omega (
    arith,
    join_powers d (height l) (height r) (length (entries l)) (length (entries r)) diff
        (half_power-entries l al) (half_power-entries r ar),
    length-append (entries l) ((x, v) ∷ entries r),
  )

  -- A balanced tree of n nodes is at most 2 log2 (n + 1) + 1 high.
  pub height-entries : (t : Tree K V) → IsAvl t → 2 ^ (height t / 2) ≤ length (entries t) + 1
  height-entries t avl =
      subst (λ n. n ≤ length (entries t) + 1) (half_power-eq (height t)) (half_power-entries t avl)
