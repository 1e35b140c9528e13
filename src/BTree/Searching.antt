-- ===== src/BTree/Searching.antt =====
-- `find` of src/btree.hpp.
use corecommon.Common.{Bool, not, ◌&&◌, List, ◌∷◌, Option, none, some, if◌then◌else◌}
use corecommon.BTree.Tree.{Compare, Tree, leaf, node, Frame, left_of, right_of, Place, is_node}

-- `!lt && !gt`
abbrev pub same {ℓ} : {K : Type ℓ} ⦃compare : Compare K⦄ → K → K → Bool
same ⦃compare⦄ a b = not (compare.less a b) && not (compare.less b a)

module _ {ℓ} {K V : Type ℓ} ⦃compare : Compare K⦄ where
  -- The first loop: down to a node that is equal or has no child on the side of the key.
  unfoldable pub descend : K → List (Frame K V) → Tree K V → Place K V
  descend fx p leaf = record { path = p; focus = leaf }
  descend fx p (node d x v l r) =
      let to_left = descend fx (left_of d x v r ∷ p) l in
      let to_right = descend fx (right_of d x v l ∷ p) r in
      if is_node l && compare.less fx x
      then to_left
      else if compare.less x fx && is_node r
      then to_right
      else record { path = p; focus = node d x v l r }

  -- The loops behind it: from `next` down to the first equal node. They do not end at a node that
  -- is greater.
  unfoldable pub first_equal : K → Place K V → List (Frame K V) → Tree K V → Option (Place K V)
  first_equal fx best p leaf = some best
  first_equal fx best p (node d x v l r) =
      let to_left =
        first_equal fx (record { path = p; focus = node d x v l r }) (left_of d x v r ∷ p) l in
      let to_right = first_equal fx best (right_of d x v l ∷ p) r in
      if same fx x then to_left else if compare.less x fx then to_right else none

  unfoldable pub first_from : K → Place K V → Option (Place K V)
  first_from fx at = elim at.focus [
    | leaf ↦ some at
    | node d x v l r ↦
        if same fx x then first_equal fx at (left_of d x v r ∷ at.path) l else some at
  ]

  -- `find` on the node at the end of a path.
  unfoldable pub find : K → List (Frame K V) → Tree K V → Option (Place K V)
  find fx p t = first_from fx (descend fx p t)
