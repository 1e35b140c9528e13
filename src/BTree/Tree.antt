-- ===== src/BTree/Tree.antt =====
-- The data of src/btree.hpp. A node is seen from the place where it hangs: the way up to the root
-- stands for its `parent` and `root` pointers.
use corecommon.Common.{ℤ, ◌≡◌, Bool, true, false, List, [], ◌∷◌, ◌++◌}

-- `Compare`, with what the standard asks of it: a strict weak order.
pub record Compare {ℓ} (K : Type ℓ) : Type ℓ where
  pub less : K → K → Bool
  pub irrefl : (a : K) → less a a ≡ false
  pub trans : (a b c : K) → less a b ≡ true → less b c ≡ true → less a c ≡ true
  pub total : (a b c : K) → less a b ≡ false → less b c ≡ false → less a c ≡ false

-- `Node` with the nodes it owns; `leaf` is a null pointer. `h_diff`, a `char`, is an integer.
pub data Tree {ℓ} (K V : Type ℓ) : Type ℓ where
  leaf : Tree K V
  node : (h_diff : ℤ) → (x : K) → (v : V) → (left right : Tree K V) → Tree K V

-- One step of the way up: the parent of a left or of a right child, and its other child.
pub data Frame {ℓ} (K V : Type ℓ) : Type ℓ where
  left_of : (h_diff : ℤ) → (x : K) → (v : V) → (right : Tree K V) → Frame K V
  right_of : (h_diff : ℤ) → (x : K) → (v : V) → (left : Tree K V) → Frame K V

-- A node in its tree: the way up from it, the nearest parent first.
pub record Place {ℓ} (K V : Type ℓ) : Type ℓ where
  pub path : List (Frame K V)
  pub focus : Tree K V

module _ {ℓ} {K V : Type ℓ} where
  abbrev pub is_node : Tree K V → Bool
  is_node leaf = false
  is_node (node d x v l r) = true

  -- `node->parent && node->parent->right.get()==node`
  abbrev pub is_right : List (Frame K V) → Bool
  is_right (right_of d x v l ∷ p) = true
  is_right _ = false

  -- The parent, once its child is put there.
  abbrev pub fill_frame : Frame K V → Tree K V → Tree K V
  fill_frame (left_of d x v r) t = node d x v t r
  fill_frame (right_of d x v l) t = node d x v l t

  abbrev pub plug : List (Frame K V) → Tree K V → Tree K V
  plug [] t = t
  plug (f ∷ p) t = plug p (fill_frame f t)

  -- The nodes in the order of the iterators.
  abbrev pub entries : Tree K V → List (K × V)
  entries leaf = []
  entries (node d x v l r) = entries l ++ (x, v) ∷ entries r
