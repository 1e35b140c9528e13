-- ===== src/BTree/Removed.antt =====
-- `remove` of src/btree.hpp on a balanced tree.
use corecommon.Common.{
  suc, max, ℤ, true, false, not, List, [], ◌∷◌, ◌++◌, ◌≡◌, refl, sym, ap, ◌∙◌, append_assoc,
  append-nil, arith,
}
use mathlib.Core.Path.{subst}
use corecommon.BTree.Tree.{
  Tree, leaf, node, Frame, left_of, right_of, is_right, plug, fill_frame, entries,
}
use corecommon.BTree.Changing.{replace_with, put_child, remove_from, remove}
use corecommon.BTree.InOrder.{
  before, behind, around, around-fill_frame, entries-plug, entries-rebalance,
}
use corecommon.BTree.Balance.{IsDiff, height, IsAvl}
use corecommon.BTree.Rebalanced.{FitsPath, rebalance-IsAvl}
use corecommon.BTree.Inserted.{unplug}
use corecommon.BTree.Leftmost.{
  height_at, height-plug, FitsPath-append, before-append, behind-append, leftmost-IsLeftmost,
}

module _ {ℓ} {K V : Type ℓ} where
  put_child-IsAvl :
      (p : List (Frame K V)) (t : Tree K V)
      → FitsPath p (suc (height t))
      → IsAvl t
      → IsAvl (put_child p t)
  unfolding put_child
  put_child-IsAvl [] t fits avl = avl
  put_child-IsAvl (left_of d x v r ∷ p) t (diff, ar, fits) avl =
      rebalance-IsAvl p d x v t r true true (suc (height t)) (height r) diff (refl, refl) avl ar
        fits
  put_child-IsAvl (right_of d x v l ∷ p) t (diff, al, fits) avl =
      rebalance-IsAvl p d x v l t false true (height l) (suc (height t)) diff (refl, refl) al avl
        fits

  entries-put_child :
      (p : List (Frame K V)) (t : Tree K V) → entries (put_child p t) ≡ around p (entries t)
  unfolding put_child
  entries-put_child [] t = sym (append-nil (entries t))
  entries-put_child (f ∷ p) t =
      entries-rebalance p (fill_frame f t) (not (is_right (f ∷ p))) true ∙ around-fill_frame f p t

  -- A removed node that the leftmost node of its right child replaces.
  replace_with-IsAvl :
      (p : List (Frame K V)) (d : ℤ) (l r : Tree K V) (q : List (Frame K V)) (e : ℤ) (y : K) (w : V)
      (rest : Tree K V)
      → IsDiff d (height l) (height r)
      → FitsPath p (suc (max (height l) (height r)))
      → IsAvl l
      → IsAvl r
      → plug q (node e y w leaf rest) ≡ r
      → is_right q ≡ false
      → IsAvl (replace_with p d l (record { path = q; focus = node e y w leaf rest }))
  unfolding replace_with
  replace_with-IsAvl p d l r [] e y w rest diff fits al ar whole leftwards =
      let (_, _, a_rest) = subst IsAvl (sym whole) ar in
      let high = ap height whole in
      rebalance-IsAvl p d y w l rest false true (height l) (height r) diff
        (refl, omega (arith, high)) al a_rest fits
  replace_with-IsAvl p d l r (right_of g z u s ∷ q) e y w rest diff fits al ar whole leftwards =
      absurd (ground (arith, leftwards))
  replace_with-IsAvl p d l r (left_of g z u s ∷ q) e y w rest diff fits al ar whole leftwards =
      let focus : Tree K V = node e y w leaf rest in
      let ((_, _, a_rest), (diff', avl_s, fits')) =
        unplug (left_of g z u s ∷ q) focus (subst IsAvl (sym whole) ar) in
      let high : height r ≡ height_at (left_of g z u s ∷ q) (height focus) =
        ap height (sym whole) ∙ height-plug (left_of g z u s ∷ q) focus in
      rebalance-IsAvl (q ++ right_of d y w l ∷ p) g z u rest s true true (height focus) (height s)
        diff' (omega arith, refl) a_rest avl_s
        (FitsPath-append q (right_of d y w l ∷ p) (suc (max (height focus) (height s))) fits'
          (subst (FitsPath (right_of d y w l ∷ p)) high (diff, al, fits)))

  regroup :
      (a l : List (K × V)) (e : K × V) (rest b c : List (K × V))
      → (a ++ (l ++ e ∷ [])) ++ (rest ++ (b ++ c)) ≡ a ++ ((l ++ e ∷ (rest ++ b)) ++ c)
  regroup a l e rest b c =
      append_assoc a (l ++ e ∷ []) (rest ++ (b ++ c))
      ∙ ap (λ z. a ++ z)
          (append_assoc l (e ∷ []) (rest ++ (b ++ c))
            ∙ (ap (λ z. l ++ e ∷ z) (sym (append_assoc rest b c))
                ∙ sym (append_assoc l (e ∷ (rest ++ b)) c)))

  entries-replace_with :
      (p : List (Frame K V)) (d : ℤ) (l r : Tree K V) (q : List (Frame K V)) (e : ℤ) (y : K) (w : V)
      (rest : Tree K V)
      → plug q (node e y w leaf rest) ≡ r
      → before q ≡ []
      → entries (replace_with p d l (record { path = q; focus = node e y w leaf rest }))
        ≡ around p (entries l ++ entries r)
  unfolding replace_with
  entries-replace_with p d l r [] e y w rest whole first =
      entries-rebalance p (node d y w l rest) false true
      ∙ ap (λ t. around p (entries l ++ entries t)) whole
  entries-replace_with p d l r (f ∷ q) e y w rest whole first =
      let R = right_of d y w l ∷ p in
      let B = behind (f ∷ q) in
      let focus : Tree K V = node e y w leaf rest in
      let entries_r : entries r ≡ (y, w) ∷ (entries rest ++ B) =
        ap entries (sym whole)
        ∙ (entries-plug (f ∷ q) focus ∙ ap (λ z. z ++ ((y, w) ∷ entries rest ++ B)) first) in
      let before_all : before (f ∷ q ++ R) ≡ before R =
        before-append (f ∷ q) R ∙ (ap (λ z. before R ++ z) first ∙ append-nil (before R)) in
      entries-rebalance (q ++ R) (fill_frame f rest) true true
      ∙ (around-fill_frame f (q ++ R) rest
          ∙ (ap (λ z. z ++ (entries rest ++ behind (f ∷ q ++ R))) before_all
              ∙ (ap (λ z. before R ++ (entries rest ++ z)) (behind-append (f ∷ q) R)
                  ∙ (regroup (before p) (entries l) (y, w) (entries rest) B (behind p)
                      ∙ ap (λ z. around p (entries l ++ z)) (sym entries_r)))))

  remove_from-IsAvl :
      (p : List (Frame K V)) (d : ℤ) (l r : Tree K V)
      → IsDiff d (height l) (height r)
      → FitsPath p (suc (max (height l) (height r)))
      → IsAvl l
      → IsAvl r
      → IsAvl (remove_from p d l r)
        × (entries (remove_from p d l r) ≡ around p (entries l ++ entries r))
  unfolding remove_from
  remove_from-IsAvl p d leaf r diff fits al ar =
      (put_child-IsAvl p r (subst (FitsPath p) (omega arith) fits) ar, entries-put_child p r)
  remove_from-IsAvl p d (node e x v a b) leaf diff fits al ar = (
    put_child-IsAvl p (node e x v a b) (subst (FitsPath p) (omega arith) fits) al,
    entries-put_child p (node e x v a b)
        ∙ ap (around p) (sym (append-nil (entries (node e x v a b)))),
  )
  remove_from-IsAvl p d (node e x v a b) (node g y w b' c) diff fits al ar =
      let r : Tree K V = node g y w b' c in
      let l : Tree K V = node e x v a b in
      let m = leftmost-IsLeftmost [] r r refl refl refl refl in
      (
        subst (λ at. IsAvl (replace_with p d l at)) (sym m.is)
            (replace_with-IsAvl p d l r m.path m.h_diff m.x m.v m.rest diff fits al ar m.whole
              m.leftwards),
        ap (λ at. entries (replace_with p d l at)) m.is
            ∙ entries-replace_with p d l r m.path m.h_diff m.x m.v m.rest m.whole m.first,
      )

  -- `remove` of a node at any place of a balanced tree leaves a balanced tree that has all other
  -- nodes in their order.
  pub remove-IsAvl :
      (p : List (Frame K V)) (d : ℤ) (x : K) (v : V) (l r : Tree K V)
      → IsAvl (plug p (node d x v l r))
      → IsAvl (remove (record { path = p; focus = node d x v l r }))
        × (entries (plug p (node d x v l r)) ≡ around p (entries l ++ (x, v) ∷ entries r))
        × (entries (remove (record { path = p; focus = node d x v l r }))
            ≡ around p (entries l ++ entries r))
  unfolding remove
  remove-IsAvl p d x v l r avl =
      let ((diff, al, ar), fits) = unplug p (node d x v l r) avl in
      let (avl', e) = remove_from-IsAvl p d l r diff fits al ar in
      (avl', entries-plug p (node d x v l r), e)
