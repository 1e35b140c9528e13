-- ===== src/BTree/Rounds.antt =====
-- One round of `rebalance` of src/btree.hpp, on a node with a child that has grown or shrunk by one.
use corecommon.Common.{
  ℕ, zero, suc, max, ℤ, pos, negsuc, Bool, true, false, not, if◌then◌else◌, ◌≡◌, refl, arith, inl,
  inr,
}
use corecommon.BTree.Tree.{Tree, node}
use corecommon.BTree.Rotating.{Round, stop, up, after_rotation, round_right, round_left, round}
use corecommon.BTree.Balance.{IsDiff, height, IsAvl, Rotated, right_heavy, left_heavy}

-- The heights `a` and `b` that the `h_diff` of a node still stands for, from the heights of its
-- children: with `r_inc` the right one has grown or the left one has shrunk.
abbrev pub IsStale : (r_inc rem : Bool) → (a b hl hr : ℕ) → Type 0
IsStale true false a b hl hr = (hl ≡ a) × (hr ≡ suc b)
IsStale false false a b hl hr = (hl ≡ suc a) × (hr ≡ b)
IsStale true true a b hl hr = (suc hl ≡ a) × (hr ≡ b)
IsStale false true a b hl hr = (hl ≡ a) × (suc hr ≡ b)

-- A subtree that was `h` high has grown, or shrunk.
abbrev pub IsChanged : (rem : Bool) → (h now : ℕ) → Type 0
IsChanged true h now = suc now ≡ h
IsChanged false h now = now ≡ suc h

abbrev pub next_r_inc : (right rem : Bool) → Bool
next_r_inc right rem = if rem then not right else right

module _ {ℓ} {K V : Type ℓ} where
  -- What a round may end with, where the subtree was `h` high: a balanced subtree of that height;
  -- or one that has changed by one, and the parent's `r_inc` says so.
  abbrev pub EndsRound : (right rem : Bool) → ℕ → Round K V → Type 0
  EndsRound right rem h (stop t) = IsAvl t × (height t ≡ h)
  EndsRound right rem h (up t next) =
      IsAvl t × IsChanged rem h (height t) × (next ≡ next_r_inc right rem)

  rotation_of_grown :
      (grown : ℤ) (right : Bool) (s t : Tree K V) (h : ℕ)
      → Rotated grown s t
      → h ≡ height s
      → EndsRound right false h (after_rotation grown right false t)
  unfolding after_rotation
  rotation_of_grown grown right s t h (avl, inl (e, g)) eq = rw (e) (avl, omega arith, refl)
  rotation_of_grown grown right s t h (avl, inr (e, g)) eq = rw (e) (avl, omega arith)

  rotation_of_shrunk :
      (grown : ℤ) (right : Bool) (s t : Tree K V) (h : ℕ)
      → Rotated grown s t
      → h ≡ suc (height s)
      → EndsRound right true h (after_rotation grown right true t)
  unfolding after_rotation
  rotation_of_shrunk grown right s t h (avl, inl (e, g)) eq = rw (e) (avl, omega arith)
  rotation_of_shrunk grown right s t h (avl, inr (e, g)) eq = rw (e) (avl, omega arith, refl)

  -- A round on a node, which was as high as its old children `a` and `b` say.
  pub round-EndsRound :
      (right r_inc rem : Bool) (d : ℤ) (x : K) (v : V) (l r : Tree K V) (a b : ℕ)
      → IsDiff d a b
      → IsStale r_inc rem a b (height l) (height r)
      → IsAvl l
      → IsAvl r
      → EndsRound right rem (suc (max a b)) (round right r_inc rem (node d x v l r))
  unfolding round round_right round_left
  round-EndsRound right r_inc rem (pos (suc (suc n))) x v l r a b (le, e) s al ar =
      absurd (omega arith)
  round-EndsRound right r_inc rem (negsuc (suc n)) x v l r a b (le, e) s al ar =
      absurd (omega arith)
  round-EndsRound right true false (negsuc zero) x v l r a b (_, e) (p, q) al ar =
      (((omega arith, omega arith), al, ar), omega arith)
  round-EndsRound right true false (pos zero) x v l r a b (_, e) (p, q) al ar =
      (((omega arith, omega arith), al, ar), omega arith, refl)
  round-EndsRound right true false (pos (suc zero)) x v l r a b (_, e) (p, q) al ar =
      rotation_of_grown (negsuc 0) right r _ (suc (max a b))
        (right_heavy x v l r (omega arith) al ar) (omega arith)
  round-EndsRound right false false (pos (suc zero)) x v l r a b (_, e) (p, q) al ar =
      (((omega arith, omega arith), al, ar), omega arith)
  round-EndsRound right false false (pos zero) x v l r a b (_, e) (p, q) al ar =
      (((omega arith, omega arith), al, ar), omega arith, refl)
  round-EndsRound right false false (negsuc zero) x v l r a b (_, e) (p, q) al ar =
      rotation_of_grown (pos 1) right l _ (suc (max a b)) (left_heavy x v l r (omega arith) al ar)
        (omega arith)
  round-EndsRound right true true (negsuc zero) x v l r a b (_, e) (p, q) al ar =
      (((omega arith, omega arith), al, ar), omega arith, refl)
  round-EndsRound right true true (pos zero) x v l r a b (_, e) (p, q) al ar =
      (((omega arith, omega arith), al, ar), omega arith)
  round-EndsRound right true true (pos (suc zero)) x v l r a b (_, e) (p, q) al ar =
      rotation_of_shrunk (negsuc 0) right r _ (suc (max a b))
        (right_heavy x v l r (omega arith) al ar) (omega arith)
  round-EndsRound right false true (pos (suc zero)) x v l r a b (_, e) (p, q) al ar =
      (((omega arith, omega arith), al, ar), omega arith, refl)
  round-EndsRound right false true (pos zero) x v l r a b (_, e) (p, q) al ar =
      (((omega arith, omega arith), al, ar), omega arith)
  round-EndsRound right false true (negsuc zero) x v l r a b (_, e) (p, q) al ar =
      rotation_of_shrunk (pos 1) right l _ (suc (max a b)) (left_heavy x v l r (omega arith) al ar)
        (omega arith)
