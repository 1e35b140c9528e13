-- ===== src/BTree/Changing.antt =====
-- `insert_node`, `insert` and `remove` of src/btree.hpp. What they give is the tree of the root.
use corecommon.Common.{
  ℕ, zero, suc, ℤ, pos, true, false, not, ◌||◌, List, [], ◌∷◌, ◌++◌, Option, none, some,
  if◌then◌else◌, ◌>>=◌,
}
use corecommon.BTree.Tree.{
  Compare, Tree, leaf, node, Frame, left_of, right_of, Place, is_node, fill_frame, plug, is_right,
}
use corecommon.BTree.Rotating.{rebalance}
use corecommon.BTree.Searching.{find}

module _ {ℓ} {K V : Type ℓ} ⦃compare : Compare K⦄ where
  -- `insert_node` at the node that `find` gives. `deeper` is `insert_node` on its right child.
  unfoldable pub insert_at :
      (deeper : List (Frame K V) → Tree K V → Option (Tree K V))
      → Place K V
      → K
      → V
      → Option (Tree K V)
  insert_at deeper at k v = elim at.focus [
    | leaf ↦ none
    | node d x w l r ↦
        (let new = node (pos 0) k v leaf leaf in
          let below = deeper (right_of d x w l ∷ at.path) r in
          if compare.less k x
          then some (rebalance at.path (node d x w new r) false false)
          else if compare.less x k || not (is_node r)
          then some (rebalance at.path (node d x w l new) true false)
          else below)
  ]

  -- `Node::insert_node` on the node at the end of a path.
  unfoldable pub insert_node : ℕ → List (Frame K V) → Tree K V → K → V → Option (Tree K V)
  insert_node zero p t k v = none
  insert_node (suc fuel) p t k v = do
    at ← find k p t
    insert_at (λ p' t'. insert_node fuel p' t' k v) at k v

  -- `Root::insert`
  unfoldable pub insert : ℕ → Tree K V → K → V → Option (Tree K V)
  insert fuel leaf k v = some (node (pos 0) k v leaf leaf)
  insert fuel (node d x w l r) k v = insert_node fuel [] (node d x w l r) k v

module _ {ℓ} {K V : Type ℓ} where
  -- The way down to the leftmost node, the nearest parent first.
  abbrev pub leftmost : List (Frame K V) → Tree K V → Place K V
  leftmost p leaf = record { path = p; focus = leaf }
  leftmost p (node d x v leaf r) = record { path = p; focus = node d x v leaf r }
  leftmost p (node d x v (node e y w a b) r) = leftmost (left_of d x v r ∷ p) (node e y w a b)

  -- `remove` of a node with two children: the leftmost node of the right one, at the end of `q`
  -- below it, takes its place.
  unfoldable pub replace_with : List (Frame K V) → ℤ → Tree K V → Place K V → Tree K V
  replace_with p d l at = elim at.focus [
    | leaf ↦ plug p l
    | node e y w _ rest ↦ elim at.path [
      | [] ↦ rebalance p (node d y w l rest) false true
      | f ∷ q ↦ rebalance (q ++ right_of d y w l ∷ p) (fill_frame f rest) true true
    ]
  ]

  -- `remove` of a node with one child or none.
  unfoldable pub put_child : List (Frame K V) → Tree K V → Tree K V
  put_child [] child = child
  put_child (f ∷ p) child = rebalance p (fill_frame f child) (not (is_right (f ∷ p))) true

  unfoldable pub remove_from : List (Frame K V) → ℤ → (left right : Tree K V) → Tree K V
  remove_from p d leaf r = put_child p r
  remove_from p d (node e x v a b) leaf = put_child p (node e x v a b)
  remove_from p d (node e x v a b) (node g y w b' c) =
      replace_with p d (node e x v a b) (leftmost [] (node g y w b' c))

  unfoldable pub remove : Place K V → Tree K V
  remove at = elim at.focus [
    | leaf ↦ plug at.path leaf
    | node d x v l r ↦ remove_from at.path d l r
  ]
