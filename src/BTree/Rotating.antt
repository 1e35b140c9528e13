-- ===== src/BTree/Rotating.antt =====
-- `rot_right`, `rot_left` and `rebalance` of src/btree.hpp.
use corecommon.Common.{
  ℤ, pos, negsuc, ◌+ℤ◌, ◌-ℤ◌, ◌≤?ℤ◌, ◌==ℤ◌, Bool, true, false, not, ◌&&◌, List, [], ◌∷◌,
  if◌then◌else◌,
}
use corecommon.BTree.Tree.{Tree, leaf, node, Frame, is_right, fill_frame, plug}

-- The end of a round of `rebalance`: it breaks off, or goes on at the parent with `r_inc`.
pub data Round {ℓ} (K V : Type ℓ) : Type ℓ where
  stop : Tree K V → Round K V
  up : Tree K V → (r_inc : Bool) → Round K V

module _ {ℓ} {K V : Type ℓ} where
  -- A rotation towards a child that is not there, which C++ leaves undefined, changes nothing.
  unfoldable pub rot_right : Tree K V → Tree K V
  rot_right (node d x v l (node e y w b c)) =
      let d' = if e ≤?ℤ pos 0 then d -ℤ pos 1 else d -ℤ (e +ℤ pos 1) in
      let e' = if pos 0 ≤?ℤ d' then e -ℤ pos 1 else e +ℤ (d' -ℤ pos 1) in
      node e' y w (node d' x v l b) c
  rot_right t = t

  unfoldable pub rot_left : Tree K V → Tree K V
  rot_left (node d x v (node e y w b c) r) =
      let d' = if pos 0 ≤?ℤ e then d +ℤ pos 1 else d -ℤ (e -ℤ pos 1) in
      let e' = if d' ≤?ℤ pos 0 then e +ℤ pos 1 else e +ℤ (d' +ℤ pos 1) in
      node e' y w b (node d' x v c r)
  rot_left t = t

  -- `t->h_diff==d`
  abbrev pub has_diff : ℤ → Tree K V → Bool
  has_diff d leaf = false
  has_diff d (node e x v l r) = e ==ℤ d

  -- After a rotation: `even` is the `h_diff` of a subtree that has grown.
  unfoldable pub after_rotation : (grown : ℤ) → (right rem : Bool) → Tree K V → Round K V
  after_rotation grown right rem t =
      if rem && not (has_diff grown t)
      then up t (not right)
      else if not rem && has_diff grown t
      then up t right
      else stop t

  -- The round for `r_inc`, once `h_diff` is raised.
  unfoldable pub round_right : (right rem : Bool) → Tree K V → Round K V
  round_right right rem leaf = stop leaf
  round_right right rem (node d x v l r) =
      if pos 2 ≤?ℤ d
      then after_rotation (negsuc 0) right rem
          (rot_right (node d x v l (if has_diff (negsuc 0) r then rot_left r else r)))
      else if not (d ≤?ℤ pos 0) && not rem
      then up (node d x v l r) right
      else if d ≤?ℤ pos 0 && rem
      then up (node d x v l r) (not right)
      else stop (node d x v l r)

  -- The round for `!r_inc`, once `h_diff` is lowered.
  unfoldable pub round_left : (right rem : Bool) → Tree K V → Round K V
  round_left right rem leaf = stop leaf
  round_left right rem (node d x v l r) =
      if d ≤?ℤ negsuc 1
      then after_rotation (pos 1) right rem
          (rot_left (node d x v (if has_diff (pos 1) l then rot_right l else l) r))
      else if not (pos 0 ≤?ℤ d) && not rem
      then up (node d x v l r) right
      else if pos 0 ≤?ℤ d && rem
      then up (node d x v l r) (not right)
      else stop (node d x v l r)

  unfoldable pub round : (right r_inc rem : Bool) → Tree K V → Round K V
  round right r_inc rem leaf = stop leaf
  round right true rem (node d x v l r) = round_right right rem (node (d +ℤ pos 1) x v l r)
  round right false rem (node d x v l r) = round_left right rem (node (d -ℤ pos 1) x v l r)

  -- `rebalance`, from a node up: the tree that it leaves.
  unfoldable pub rebalance : List (Frame K V) → Tree K V → (r_inc rem : Bool) → Tree K V
  rebalance [] t r_inc rem = elim (round false r_inc rem t) [ stop t' ↦ t' | up t' next ↦ t' ]
  rebalance (f ∷ p) t r_inc rem = elim (round (is_right (f ∷ p)) r_inc rem t) [
    | stop t' ↦ plug (f ∷ p) t'
    | up t' next ↦ rebalance p (fill_frame f t') next rem
  ]
