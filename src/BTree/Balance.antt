-- ===== src/BTree/Balance.antt =====
-- Balanced trees of src/btree.hpp, and the rotations of an unbalanced node.
use corecommon.Common.{
  ℕ, zero, suc, ◌+◌, ◌≤◌, max, ℤ, pos, negsuc, true, false, if◌then◌else◌, ◌≡◌, ◌⊎◌, refl, arith,
  inl, inr,
}
use corecommon.BTree.Tree.{Tree, leaf, node}
use corecommon.BTree.Rotating.{rot_right, rot_left, has_diff}

-- `d` is the second height less the first, and neither is more than one above the other.
abbrev pub IsDiff : ℤ → ℕ → ℕ → Type 0
IsDiff (pos n) a b = (n ≤ 1) × (a + n ≡ b)
IsDiff (negsuc n) a b = (n ≤ 0) × (a ≡ b + suc n)

module _ {ℓ} {K V : Type ℓ} where
  abbrev pub height : Tree K V → ℕ
  height leaf = 0
  height (node d x v l r) = suc (max (height l) (height r))

  abbrev pub IsAvl : Tree K V → Type 0
  IsAvl leaf = 0 ≤ 0
  IsAvl (node d x v l r) = IsDiff d (height l) (height r) × IsAvl l × IsAvl r

  -- A balanced subtree that a rotation leaves: it is as high as the higher child `s` was, or one
  -- higher, which its `h_diff` shows.
  abbrev pub Rotated : (grown : ℤ) → (s t : Tree K V) → Type 0
  Rotated grown s t =
      IsAvl t
      × (((has_diff grown t ≡ true) × (height t ≡ suc (height s)))
          ⊎ ((has_diff grown t ≡ false) × (height t ≡ height s)))

  -- Where the right child is two higher, one rotation or two balance the node.
  pub right_heavy :
      (x : K) (v : V) (l r : Tree K V)
      → height r ≡ suc (suc (height l))
      → IsAvl l
      → IsAvl r
      → Rotated
          (negsuc 0)
          r
          (rot_right (node (pos 2) x v l (if has_diff (negsuc 0) r then rot_left r else r)))
  unfolding rot_right rot_left
  right_heavy x v l leaf g al ar = absurd (omega arith)
  right_heavy x v l (node (pos zero) y w c f) g al ((_, e), ac, af) = (
    ((omega arith, omega arith), ((omega arith, omega arith), al, ac), af),
    inl (refl, omega arith),
  )
  right_heavy x v l (node (pos (suc zero)) y w c f) g al ((_, e), ac, af) = (
    ((omega arith, omega arith), ((omega arith, omega arith), al, ac), af),
    inr (refl, omega arith),
  )
  right_heavy x v l (node (negsuc zero) y w leaf f) g al ((_, e), ac, af) = absurd (omega arith)
  right_heavy x v l (node (negsuc zero) y w (node (pos zero) z u m n) f) g al
        ((_, e), ((_, e'), am, an), af) =
      (
        (
          (omega arith, omega arith),
          ((omega arith, omega arith), al, am),
          ((omega arith, omega arith), an, af),
        ),
        inr (refl, omega arith),
      )
  right_heavy x v l (node (negsuc zero) y w (node (pos (suc zero)) z u m n) f) g al
        ((_, e), ((_, e'), am, an), af) =
      (
        (
          (omega arith, omega arith),
          ((omega arith, omega arith), al, am),
          ((omega arith, omega arith), an, af),
        ),
        inr (refl, omega arith),
      )
  right_heavy x v l (node (negsuc zero) y w (node (negsuc zero) z u m n) f) g al
        ((_, e), ((_, e'), am, an), af) =
      (
        (
          (omega arith, omega arith),
          ((omega arith, omega arith), al, am),
          ((omega arith, omega arith), an, af),
        ),
        inr (refl, omega arith),
      )
  right_heavy x v l (node (negsuc zero) y w (node (pos (suc (suc i))) z u m n) f) g al
        ((_, e), ((le, e'), am, an), af) =
      absurd (omega arith)
  right_heavy x v l (node (negsuc zero) y w (node (negsuc (suc i)) z u m n) f) g al
        ((_, e), ((le, e'), am, an), af) =
      absurd (omega arith)
  right_heavy x v l (node (pos (suc (suc i))) y w c f) g al ((le, e), ac, af) = absurd (omega arith)
  right_heavy x v l (node (negsuc (suc i)) y w c f) g al ((le, e), ac, af) = absurd (omega arith)

  pub left_heavy :
      (x : K) (v : V) (l r : Tree K V)
      → height l ≡ suc (suc (height r))
      → IsAvl l
      → IsAvl r
      → Rotated
          (pos 1)
          l
          (rot_left (node (negsuc 1) x v (if has_diff (pos 1) l then rot_right l else l) r))
  unfolding rot_right rot_left
  left_heavy x v leaf r g al ar = absurd (omega arith)
  left_heavy x v (node (pos zero) y w c f) r g ((_, e), ac, af) ar = (
    ((omega arith, omega arith), ac, ((omega arith, omega arith), af, ar)),
    inl (refl, omega arith),
  )
  left_heavy x v (node (negsuc zero) y w c f) r g ((_, e), ac, af) ar = (
    ((omega arith, omega arith), ac, ((omega arith, omega arith), af, ar)),
    inr (refl, omega arith),
  )
  left_heavy x v (node (pos (suc zero)) y w c leaf) r g ((_, e), ac, af) ar = absurd (omega arith)
  left_heavy x v (node (pos (suc zero)) y w c (node (pos zero) z u m n)) r g
        ((_, e), ac, ((_, e'), am, an)) ar =
      (
        (
          (omega arith, omega arith),
          ((omega arith, omega arith), ac, am),
          ((omega arith, omega arith), an, ar),
        ),
        inr (refl, omega arith),
      )
  left_heavy x v (node (pos (suc zero)) y w c (node (pos (suc zero)) z u m n)) r g
        ((_, e), ac, ((_, e'), am, an)) ar =
      (
        (
          (omega arith, omega arith),
          ((omega arith, omega arith), ac, am),
          ((omega arith, omega arith), an, ar),
        ),
        inr (refl, omega arith),
      )
  left_heavy x v (node (pos (suc zero)) y w c (node (negsuc zero) z u m n)) r g
        ((_, e), ac, ((_, e'), am, an)) ar =
      (
        (
          (omega arith, omega arith),
          ((omega arith, omega arith), ac, am),
          ((omega arith, omega arith), an, ar),
        ),
        inr (refl, omega arith),
      )
  left_heavy x v (node (pos (suc zero)) y w c (node (pos (suc (suc i))) z u m n)) r g
        ((_, e), ac, ((le, e'), am, an)) ar =
      absurd (omega arith)
  left_heavy x v (node (pos (suc zero)) y w c (node (negsuc (suc i)) z u m n)) r g
        ((_, e), ac, ((le, e'), am, an)) ar =
      absurd (omega arith)
  left_heavy x v (node (pos (suc (suc i))) y w c f) r g ((le, e), ac, af) ar = absurd (omega arith)
  left_heavy x v (node (negsuc (suc i)) y w c f) r g ((le, e), ac, af) ar = absurd (omega arith)
