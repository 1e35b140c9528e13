-- ===== src/BTree/First.antt =====
-- `find` of src/btree.hpp gives the first equal node of a sorted tree.
use corecommon.Common.{
  ℕ, ℤ, ◌≤◌, true, false, List, [], ◌∷◌, ◌++◌, Option, some, ◌≡◌, ◌⊎◌, refl, sym, ap, ◌∙◌, arith,
  if-cases, inl, inr,
}
use corecommon.BTree.Tree.{
  Compare, Tree, leaf, node, Frame, left_of, right_of, Place, is_node, plug, entries,
}
use corecommon.BTree.Searching.{same, descend, first_equal, first_from, find}
use corecommon.BTree.InOrder.{before, behind, entries-plug}
use corecommon.BTree.Balance.{height}
use corecommon.BTree.Sorted.{AllBelow, IsSorted, AllBelow-split, AllBelow-mono, IsSorted-split}
use corecommon.BTree.Found.{EndsSearch, IsFound, descend-IsFound}
use corecommon.BTree.Strict.{
  AllLess, AllGreater, AllLess-append, AllBelow-AllLess, LiesStrictly, strictly_left,
  strictly_right, descend-LiesStrictly,
}
use corecommon.BTree.Visited.{from_here}

module _ {ℓ} {K V : Type ℓ} ⦃compare : Compare K⦄ where
  abbrev HasKey : K → Tree K V → Type 0
  HasKey k leaf = 1 ≤ 0
  HasKey k (node d x v l r) = same k x ≡ true

  -- All keys before `middle` are less; and `middle` starts with the node at the place, which is
  -- equal, or has greater keys only.
  pub record FirstEqual (k : K) (all : List (K × V)) (at : Place K V) : Type ℓ where
    pub less : List (K × V)
    pub others : List (K × V)
    pub is : all ≡ less ++ others
    pub all_less : AllLess k less
    pub answer : ((others ≡ from_here at.path at.focus) × HasKey k at.focus) ⊎ AllGreater k others

  -- The loops behind the first, where all that stands before the next node is less.
  first_equal-FirstEqual :
      (k : K) (whole : Tree K V) (best : Place K V) (p : List (Frame K V)) (t : Tree K V)
      → plug p t ≡ whole
      → IsSorted (entries t)
      → AllBelow k (entries t)
      → AllLess k (before p)
      → behind p ≡ from_here best.path best.focus
      → HasKey k best.focus
      → (at : Place K V) × (first_equal k best p t ≡ some at) × FirstEqual k (entries whole) at
  unfolding first_equal
  first_equal-FirstEqual k whole best p leaf e s below less from has = (
    best,
    refl,
    record {
      less = before p;
      others = behind p;
      is = ap entries (sym e) ∙ entries-plug p leaf;
      all_less = less;
      answer = inl (from, has);
    },
  )
  first_equal-FirstEqual k whole best p (node d x v l r) e s below less from has =
      let Q = λ (o : Option (Place K V)).
        (at : Place K V) × (o ≡ some at) × FirstEqual k (entries whole) at in
      let (sl, bl', _, sr) = IsSorted-split (entries l) x v (entries r) s in
      let (bl, (le, br)) = AllBelow-split k (entries l) ((x, v) ∷ entries r) below in
      if-cases Q (same k x) _ _
        (λ b.
          first_equal-FirstEqual k whole (record { path = p; focus = node d x v l r })
            (left_of d x v r ∷ p) l e sl bl less refl b)
        λ c.
          if-cases Q (compare.less x k) _ _
            (λ b.
              first_equal-FirstEqual k whole best (right_of d x v l ∷ p) r e sr br
                (AllLess-append k (before p) (entries l ++ (x, v) ∷ []) less (
                  AllLess-append k (entries l) ((x, v) ∷ [])
                    (AllBelow-AllLess x k (entries l) b bl') (b, omega arith)))
                from has)
            λ b. absurd (ground (arith, b, c, le))

  -- The first loop ends at a node that is not equal.
  missing :
      (k : K) (whole : Tree K V) (h : ℕ) (p : List (Frame K V)) (d : ℤ) (x : K) (v : V)
      (l r : Tree K V)
      → plug p (node d x v l r) ≡ whole
      → IsSorted (entries (node d x v l r))
      → EndsSearch k (node d x v l r)
      → LiesStrictly k p
      → same k x ≡ false
      → FirstEqual k (entries whole) (record { path = p; focus = node d x v l r })
  missing k whole h p d x v (node e y w a b) r same_tree s (inl (lt, bare)) lies differs =
      absurd (ground (arith, bare))
  missing k whole h p d x v leaf r same_tree s (inl (lt, bare)) lies differs =
      let (less, greater) = strictly_left k p d x v leaf r lt s lies in
      record {
        less = before p;
        others = (x, v) ∷ entries r ++ behind p;
        is = ap entries (sym same_tree) ∙ entries-plug p (node d x v leaf r);
        all_less = less;
        answer = inr greater;
      }
  missing k whole h p d x v l (node e y w a b) same_tree s (inr (ge, inl (gt, bare))) lies differs =
      absurd (ground (arith, bare))
  missing k whole h p d x v l leaf same_tree s (inr (ge, inl (gt, bare))) lies differs =
      let (less, greater) = strictly_right k p d x v l leaf gt s lies in
      record {
        less = before (right_of d x v l ∷ p);
        others = behind p;
        is = ap entries (sym same_tree) ∙ entries-plug (right_of d x v l ∷ p) leaf;
        all_less = less;
        answer = inr greater;
      }
  missing k whole h p d x v l r same_tree s (inr (ge, inr le)) lies differs =
      absurd (ground (arith, ge, le, differs))

  first_from-FirstEqual :
      (k : K) (whole : Tree K V) (h : ℕ) (p : List (Frame K V)) (t : Tree K V)
      → IsFound k whole h (record { path = p; focus = t })
      → LiesStrictly k p
      → (at : Place K V) × (first_from k (record { path = p; focus = t }) ≡ some at)
        × FirstEqual k (entries whole) at
  unfolding first_from
  first_from-FirstEqual k whole h p leaf f lies = absurd (omega (arith, f.ends))
  first_from-FirstEqual k whole h p (node d x v l r) f (less, greater) =
      let at : Place K V = record { path = p; focus = node d x v l r } in
      let Q = λ (o : Option (Place K V)).
        (at : Place K V) × (o ≡ some at) × FirstEqual k (entries whole) at in
      let (sl, bl, _, _) = IsSorted-split (entries l) x v (entries r) f.sorted in
      if-cases Q (same k x) _ _
        (λ b.
          first_equal-FirstEqual k whole at (left_of d x v r ∷ p) l f.same_tree sl
            (AllBelow-mono x k (entries l) (ground (arith, b)) bl) less refl b)
        λ b. (at, refl, missing k whole h p d x v l r f.same_tree f.sorted f.ends (less, greater) b)

  -- In every sorted tree that is not empty, `find` ends. If keys of the tree are equal to the one
  -- it looks for, it gives the first such node in the order of the tree; if none is, every key
  -- is less or greater.
  pub find-FirstEqual :
      (k : K) (t : Tree K V)
      → is_node t ≡ true
      → IsSorted (entries t)
      → (at : Place K V) × (find k [] t ≡ some at) × FirstEqual k (entries t) at
  unfolding find
  find-FirstEqual k t some_node s =
      let at = descend k [] t in
      first_from-FirstEqual k t (height t) at.path at.focus
        (descend-IsFound k t (height t) [] t some_node refl (omega arith, omega arith) s
          (omega arith))
        (descend-LiesStrictly k [] t s (omega arith, omega arith))
