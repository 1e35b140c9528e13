-- ===== src/BTree/Strict.antt =====
-- The first loop of `find` of src/btree.hpp: what stands before it is less, behind it greater.
use corecommon.Common.{
  ℤ, ◌≤◌, true, ◌&&◌, List, [], ◌∷◌, ◌++◌, ◌≡◌, arith, Bool-cases, if-cases, inl, inr,
}
use corecommon.BTree.Tree.{
  Compare, Tree, leaf, node, Frame, left_of, right_of, Place, is_node, entries,
}
use corecommon.BTree.Searching.{descend}
use corecommon.BTree.InOrder.{before, behind}
use corecommon.BTree.Sorted.{AllBelow, AllAbove, IsSorted, IsSorted-split}

module _ {ℓ} {K V : Type ℓ} ⦃compare : Compare K⦄ where
  -- Every key less than `k`, and greater.
  abbrev pub AllLess : K → List (K × V) → Type 0
  AllLess k [] = 0 ≤ 0
  AllLess k ((x, v) ∷ es) = (compare.less x k ≡ true) × AllLess k es

  abbrev pub AllGreater : K → List (K × V) → Type 0
  AllGreater k [] = 0 ≤ 0
  AllGreater k ((x, v) ∷ es) = (compare.less k x ≡ true) × AllGreater k es

  pub AllLess-append :
      (k : K) (xs ys : List (K × V)) → AllLess k xs → AllLess k ys → AllLess k (xs ++ ys)
  AllLess-append k [] ys a b = b
  AllLess-append k ((x, v) ∷ xs) ys (h, a) b = (h, AllLess-append k xs ys a b)

  AllGreater-append :
      (k : K) (xs ys : List (K × V)) → AllGreater k xs → AllGreater k ys → AllGreater k (xs ++ ys)
  AllGreater-append k [] ys a b = b
  AllGreater-append k ((x, v) ∷ xs) ys (h, a) b = (h, AllGreater-append k xs ys a b)

  pub AllBelow-AllLess :
      (x k : K) (es : List (K × V)) → compare.less x k ≡ true → AllBelow x es → AllLess k es
  AllBelow-AllLess x k [] lt a = a
  AllBelow-AllLess x k ((y, v) ∷ es) lt (h, a) = (
    elim (Bool-cases (compare.less y k)) [
      | inl e ↦ e
      | inr e ↦ absurd (ground (arith, compare.total x y k h e, lt))
    ],
    AllBelow-AllLess x k es lt a,
  )

  AllAbove-AllGreater :
      (x k : K) (es : List (K × V)) → compare.less k x ≡ true → AllAbove x es → AllGreater k es
  AllAbove-AllGreater x k [] lt a = a
  AllAbove-AllGreater x k ((y, v) ∷ es) lt (h, a) = (
    elim (Bool-cases (compare.less k y)) [
      | inl e ↦ e
      | inr e ↦ absurd (ground (arith, compare.total k y x e h, lt))
    ],
    AllAbove-AllGreater x k es lt a,
  )

  abbrev pub LiesStrictly : K → List (Frame K V) → Type 0
  LiesStrictly k p = AllLess k (before p) × AllGreater k (behind p)

  pub strictly_left :
      (k : K) (p : List (Frame K V)) (d : ℤ) (x : K) (v : V) (l r : Tree K V)
      → compare.less k x ≡ true
      → IsSorted (entries (node d x v l r))
      → LiesStrictly k p
      → LiesStrictly k (left_of d x v r ∷ p)
  strictly_left k p d x v l r lt s (below, above) =
      let (_, _, ar, _) = IsSorted-split (entries l) x v (entries r) s in
      (
        below,
        (
          lt,
          AllGreater-append k (entries r) (behind p) (AllAbove-AllGreater x k (entries r) lt ar)
              above,
        ),
      )

  pub strictly_right :
      (k : K) (p : List (Frame K V)) (d : ℤ) (x : K) (v : V) (l r : Tree K V)
      → compare.less x k ≡ true
      → IsSorted (entries (node d x v l r))
      → LiesStrictly k p
      → LiesStrictly k (right_of d x v l ∷ p)
  strictly_right k p d x v l r lt s (below, above) =
      let (_, bl, _, _) = IsSorted-split (entries l) x v (entries r) s in
      (
        AllLess-append k (before p) (entries l ++ (x, v) ∷ []) below (
            AllLess-append k (entries l) ((x, v) ∷ []) (AllBelow-AllLess x k (entries l) lt bl)
              (lt, omega arith)),
        above,
      )

  pub descend-LiesStrictly :
      (k : K) (p : List (Frame K V)) (t : Tree K V)
      → IsSorted (entries t)
      → LiesStrictly k p
      → LiesStrictly k (descend k p t).path
  unfolding descend
  descend-LiesStrictly k p leaf s at = at
  descend-LiesStrictly k p (node d x v l r) s at =
      let P = λ (place : Place K V). LiesStrictly k place.path in
      let (sl, _, _, sr) = IsSorted-split (entries l) x v (entries r) s in
      if-cases P (is_node l && compare.less k x) _ _
        (λ b.
          descend-LiesStrictly k (left_of d x v r ∷ p) l sl
            (strictly_left k p d x v l r (ground (arith, b)) s at))
        λ _.
          if-cases P (compare.less x k && is_node r) _ _
            (λ b.
              descend-LiesStrictly k (right_of d x v l ∷ p) r sr
                (strictly_right k p d x v l r (ground (arith, b)) s at))
            λ _. at
