-- ===== src/BTree/Iterating.antt =====
-- `Iterator` of src/btree.hpp: its `current` is a place, or `end`.
use corecommon.Common.{ℕ, zero, suc, List, [], ◌∷◌, Option, none, some, ◌>>=◌}
use corecommon.BTree.Tree.{Tree, leaf, node, Frame, left_of, right_of, Place}
use corecommon.BTree.Changing.{leftmost}

module _ {ℓ} {K V : Type ℓ} where
  -- The loop of `operator++` that leaves right children behind.
  abbrev pub climb : List (Frame K V) → Tree K V → Option (Place K V)
  climb [] t = none
  climb (right_of d x v l ∷ p) t = climb p (node d x v l t)
  climb (left_of d x v r ∷ p) t = some (record { path = p; focus = node d x v t r })

  abbrev pub next_from : List (Frame K V) → Tree K V → Option (Place K V)
  next_from p leaf = none
  next_from p (node d x v l leaf) = climb p (node d x v l leaf)
  next_from p (node d x v l (node e y w a b)) =
      some (leftmost (right_of d x v l ∷ p) (node e y w a b))

  -- `operator++`
  unfoldable pub next : Place K V → Option (Place K V)
  next at = next_from at.path at.focus

  -- `begin`
  unfoldable pub begin : Tree K V → Option (Place K V)
  begin leaf = none
  begin (node d x v l r) = some (leftmost [] (node d x v l r))

  -- What a loop from an iterator to `end` sees.
  unfoldable pub visited : ℕ → Option (Place K V) → Option (List (K × V))
  visited zero o = none
  visited (suc fuel) none = some []
  visited (suc fuel) (some at) = elim at.focus [
    | leaf ↦ none
    | node d x v l r ↦ visited fuel (next at) >>= λ es. some ((x, v) ∷ es)
  ]
