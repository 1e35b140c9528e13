-- ===== src/BTree/Visited.antt =====
-- The iterator of src/btree.hpp goes through the nodes in order.
use corecommon.Common.{
  ℕ, ℤ, zero, suc, ◌+◌, ◌≤◌, ◌<◌, true, List, [], ◌∷◌, ◌++◌, Option, none, some, ◌>>=◌, length, ◌≡◌,
  refl, sym, ap, ◌∙◌, append_assoc, append-nil, arith,
}
use corecommon.BTree.Tree.{Tree, leaf, node, Frame, left_of, right_of, Place, is_node, entries}
use corecommon.BTree.Changing.{leftmost}
use corecommon.BTree.Iterating.{climb, next_from, next, begin, visited}
use corecommon.BTree.InOrder.{behind}

module _ {ℓ} {K V : Type ℓ} where
  -- The nodes from an iterator on.
  abbrev pub from_here : List (Frame K V) → Tree K V → List (K × V)
  from_here p leaf = []
  from_here p (node d x v l r) = (x, v) ∷ entries r ++ behind p

  ahead : Option (Place K V) → List (K × V)
  ahead none = []
  ahead (some at) = from_here at.path at.focus

  ahead-climb : (p : List (Frame K V)) (t : Tree K V) → ahead (climb p t) ≡ behind p
  unfolding ahead
  ahead-climb [] t = refl
  ahead-climb (right_of d x v l ∷ p) t = ahead-climb p (node d x v l t)
  ahead-climb (left_of d x v r ∷ p) t = refl

  ahead-leftmost :
      (p : List (Frame K V)) (t : Tree K V)
      → is_node t ≡ true
      → ahead (some (leftmost p t)) ≡ entries t ++ behind p
  unfolding ahead
  ahead-leftmost p leaf some_node = absurd (ground (arith, some_node))
  ahead-leftmost p (node d x v leaf r) some_node = refl
  ahead-leftmost p (node d x v (node e y w a b) r) some_node =
      ahead-leftmost (left_of d x v r ∷ p) (node e y w a b) refl
      ∙ sym (append_assoc (entries (node e y w a b)) ((x, v) ∷ entries r) (behind p))

  ahead-next :
      (p : List (Frame K V)) (d : ℤ) (x : K) (v : V) (l r : Tree K V)
      → ahead (next_from p (node d x v l r)) ≡ entries r ++ behind p
  ahead-next p d x v l leaf = ahead-climb p (node d x v l leaf)
  ahead-next p d x v l (node e y w a b) =
      ahead-leftmost (right_of d x v l ∷ p) (node e y w a b) refl

  IsPlace : Option (Place K V) → Type 0
  IsPlace none = 0 ≤ 0
  IsPlace (some at) = is_node at.focus ≡ true

  climb-IsPlace : (p : List (Frame K V)) (t : Tree K V) → IsPlace (climb p t)
  unfolding IsPlace
  climb-IsPlace [] t = omega arith
  climb-IsPlace (right_of d x v l ∷ p) t = climb-IsPlace p (node d x v l t)
  climb-IsPlace (left_of d x v r ∷ p) t = refl

  leftmost-IsPlace :
      (p : List (Frame K V)) (t : Tree K V) → is_node t ≡ true → IsPlace (some (leftmost p t))
  unfolding IsPlace
  leftmost-IsPlace p leaf some_node = some_node
  leftmost-IsPlace p (node d x v leaf r) some_node = refl
  leftmost-IsPlace p (node d x v (node e y w a b) r) some_node =
      leftmost-IsPlace (left_of d x v r ∷ p) (node e y w a b) refl

  next-IsPlace : (p : List (Frame K V)) (t : Tree K V) → IsPlace (next_from p t)
  unfolding IsPlace
  next-IsPlace p leaf = omega arith
  next-IsPlace p (node d x v l leaf) = climb-IsPlace p (node d x v l leaf)
  next-IsPlace p (node d x v l (node e y w a b)) =
      leftmost-IsPlace (right_of d x v l ∷ p) (node e y w a b) refl

  visited-from :
      (fuel : ℕ) (p : List (Frame K V)) (t : Tree K V)
      → ((o : Option (Place K V))
          → IsPlace o
          → length (ahead o) < fuel
          → visited fuel o ≡ some (ahead o))
      → is_node t ≡ true
      → length (from_here p t) < suc fuel
      → visited (suc fuel) (some (record { path = p; focus = t })) ≡ some (from_here p t)
  unfolding visited next
  visited-from fuel p leaf ih some_node enough = absurd (ground (arith, some_node))
  visited-from fuel p (node d x v l r) ih some_node enough =
      let e = ahead-next p d x v l r in
      ap (λ o. o >>= λ es. some ((x, v) ∷ es))
        (ih (next_from p (node d x v l r)) (next-IsPlace p (node d x v l r))
          (omega (arith, ap length e)))
      ∙ ap (λ es. some ((x, v) ∷ es)) e

  visited-ahead :
      (fuel : ℕ) (o : Option (Place K V))
      → IsPlace o
      → length (ahead o) < fuel
      → visited fuel o ≡ some (ahead o)
  unfolding visited ahead IsPlace
  visited-ahead zero o place enough = absurd (omega arith)
  visited-ahead (suc fuel) none place enough = refl
  visited-ahead (suc fuel) (some at) place enough =
      visited-from fuel at.path at.focus (visited-ahead fuel) place enough

  -- A loop from `begin` to `end` ends and sees every node once, in order.
  pub visited-begin : (t : Tree K V) → visited (length (entries t) + 1) (begin t) ≡ some (entries t)
  unfolding begin IsPlace ahead
  visited-begin leaf = visited-ahead 1 none (omega arith) (omega arith)
  visited-begin (node d x v l r) =
      let t : Tree K V = node d x v l r in
      let e = ahead-leftmost [] t refl ∙ append-nil (entries t) in
      visited-ahead (length (entries t) + 1) (some (leftmost [] t)) (leftmost-IsPlace [] t refl)
        (omega (arith, ap length e))
      ∙ ap some e
