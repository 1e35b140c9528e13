-- ===== src/BTree/Reversing.antt =====
-- `operator--` of `Iterator` of src/btree.hpp.
use corecommon.Common.{ℕ, zero, suc, List, [], ◌∷◌, ◌++◌, Option, none, some, ◌>>=◌}
use corecommon.BTree.Tree.{Tree, leaf, node, Frame, left_of, right_of, Place}

module _ {ℓ} {K V : Type ℓ} where
  -- `while (current->right) current=current->right.get()`
  abbrev pub rightmost : List (Frame K V) → Tree K V → Place K V
  rightmost p leaf = record { path = p; focus = leaf }
  rightmost p (node d x v l leaf) = record { path = p; focus = node d x v l leaf }
  rightmost p (node d x v l (node e y w a b)) = rightmost (right_of d x v l ∷ p) (node e y w a b)

  -- The loop that leaves left children behind.
  abbrev pub climb_back : List (Frame K V) → Tree K V → Option (Place K V)
  climb_back [] t = none
  climb_back (left_of d x v r ∷ p) t = climb_back p (node d x v t r)
  climb_back (right_of d x v l ∷ p) t = some (record { path = p; focus = node d x v l t })

  abbrev pub previous_from : List (Frame K V) → Tree K V → Option (Place K V)
  previous_from p leaf = none
  previous_from p (node d x v leaf r) = climb_back p (node d x v leaf r)
  previous_from p (node d x v (node e y w a b) r) =
      some (rightmost (left_of d x v r ∷ p) (node e y w a b))

  -- `operator--` on an iterator into the tree `root`.
  unfoldable pub previous : Tree K V → Option (Place K V) → Option (Place K V)
  previous leaf none = none
  previous (node d x v l r) none = some (rightmost [] (node d x v l r))
  previous root (some at) = previous_from at.path at.focus

  -- What a loop of `operator--` sees: each node stands before those seen earlier.
  unfoldable pub visited_back : Tree K V → ℕ → Option (Place K V) → Option (List (K × V))
  visited_back root zero o = none
  visited_back root (suc fuel) none = some []
  visited_back root (suc fuel) (some at) = elim at.focus [
    | leaf ↦ none
    | node d x v l r ↦
        visited_back root fuel (previous root (some at)) >>= λ es. some (es ++ (x, v) ∷ [])
  ]
