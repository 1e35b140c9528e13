-- ===== src/BTree/Returned.antt =====
-- The iterator of src/btree.hpp goes back through the nodes in order.
use corecommon.Common.{◌≤◌, true, List, [], ◌∷◌, ◌++◌, Option, none, some, ◌≡◌}
use corecommon.BTree.Tree.{Tree, leaf, node, Frame, Place, is_node, entries}
use corecommon.BTree.InOrder.{before}

module _ {ℓ} {K V : Type ℓ} where
  -- The nodes up to an iterator.
  abbrev up_to_here : List (Frame K V) → Tree K V → List (K × V)
  up_to_here p leaf = []
  up_to_here p (node d x v l r) = before p ++ (entries l ++ (x, v) ∷ [])

  abbrev seen : Option (Place K V) → List (K × V)
  seen none = []
  seen (some at) = up_to_here at.path at.focus

  abbrev IsPlace : Option (Place K V) → Type 0
  IsPlace none = 0 ≤ 0
  IsPlace (some at) = is_node at.focus ≡ true
