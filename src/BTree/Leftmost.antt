-- ===== src/BTree/Leftmost.antt =====
-- The way to the leftmost node below a node of src/btree.hpp, and paths in two parts.
use corecommon.Common.{
  ℕ, suc, max, ℤ, true, false, List, [], ◌∷◌, ◌++◌, ◌≡◌, refl, sym, ap, ◌∙◌, append_assoc,
  append-nil, arith,
}
use corecommon.BTree.Tree.{
  Tree, leaf, node, Frame, left_of, right_of, Place, is_node, is_right, plug, entries,
}
use corecommon.BTree.Changing.{leftmost}
use corecommon.BTree.InOrder.{before, behind}
use corecommon.BTree.Balance.{height}
use corecommon.BTree.Rebalanced.{FitsPath}

module _ {ℓ} {K V : Type ℓ} where
  -- The height of a subtree with a path above it.
  abbrev pub height_at : List (Frame K V) → ℕ → ℕ
  height_at [] h = h
  height_at (left_of d x v r ∷ p) h = height_at p (suc (max h (height r)))
  height_at (right_of d x v l ∷ p) h = height_at p (suc (max (height l) h))

  pub height-plug :
      (p : List (Frame K V)) (t : Tree K V) → height (plug p t) ≡ height_at p (height t)
  height-plug [] t = refl
  height-plug (left_of d x v r ∷ p) t = height-plug p (node d x v t r)
  height-plug (right_of d x v l ∷ p) t = height-plug p (node d x v l t)

  pub FitsPath-append :
      (q p : List (Frame K V)) (h : ℕ)
      → FitsPath q h
      → FitsPath p (height_at q h)
      → FitsPath (q ++ p) h
  FitsPath-append [] p h a b = b
  FitsPath-append (left_of d x v r ∷ q) p h (diff, ar, a) b =
      (diff, ar, FitsPath-append q p (suc (max h (height r))) a b)
  FitsPath-append (right_of d x v l ∷ q) p h (diff, al, a) b =
      (diff, al, FitsPath-append q p (suc (max (height l) h)) a b)

  pub before-append : (q p : List (Frame K V)) → before (q ++ p) ≡ before p ++ before q
  before-append [] p = sym (append-nil (before p))
  before-append (left_of d x v r ∷ q) p = before-append q p
  before-append (right_of d x v l ∷ q) p =
      ap (λ z. z ++ (entries l ++ (x, v) ∷ [])) (before-append q p)
      ∙ append_assoc (before p) (before q) (entries l ++ (x, v) ∷ [])

  pub behind-append : (q p : List (Frame K V)) → behind (q ++ p) ≡ behind q ++ behind p
  behind-append [] p = refl
  behind-append (left_of d x v r ∷ q) p =
      ap (λ z. (x, v) ∷ z)
        (ap (λ z. entries r ++ z) (behind-append q p)
          ∙ sym (append_assoc (entries r) (behind q) (behind p)))
  behind-append (right_of d x v l ∷ q) p = behind-append q p

  -- The way to the leftmost node goes left only.
  pub record IsLeftmost (t : Tree K V) (at : Place K V) : Type ℓ where
    pub path : List (Frame K V)
    pub h_diff : ℤ
    pub x : K
    pub v : V
    pub rest : Tree K V
    pub is : at ≡ (record { path = path; focus = node h_diff x v leaf rest })
    pub whole : plug path (node h_diff x v leaf rest) ≡ t
    pub first : before path ≡ []
    pub leftwards : is_right path ≡ false

  pub leftmost-IsLeftmost :
      (p : List (Frame K V)) (t whole : Tree K V)
      → is_node t ≡ true
      → plug p t ≡ whole
      → before p ≡ []
      → is_right p ≡ false
      → IsLeftmost whole (leftmost p t)
  leftmost-IsLeftmost p leaf whole some_node e b r = absurd (ground (arith, some_node))
  leftmost-IsLeftmost p (node d x v leaf rest) whole some_node e b r = record {
    path = p;
    h_diff = d;
    x = x;
    v = v;
    rest = rest;
    is = refl;
    whole = e;
    first = b;
    leftwards = r;
  }
  leftmost-IsLeftmost p (node d x v (node f y w a c) rest) whole some_node e b r =
      leftmost-IsLeftmost (left_of d x v rest ∷ p) (node f y w a c) whole refl e b refl
