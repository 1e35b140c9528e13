-- ===== src/BTree/Found.antt =====
-- Where `find` of src/btree.hpp ends in a sorted tree.
use corecommon.Common.{
  ℕ, ◌≤◌, ℤ, true, false, ◌&&◌, List, [], ◌∷◌, ◌++◌, Option, some, ◌≡◌, ◌⊎◌, refl, arith,
  Bool-cases, if-cases, inl, inr,
}
use corecommon.BTree.Tree.{
  Compare, Tree, leaf, node, Frame, left_of, right_of, Place, is_node, plug, entries,
}
use corecommon.BTree.Searching.{same, descend, first_equal, first_from, find}
use corecommon.BTree.InOrder.{before, behind}
use corecommon.BTree.Balance.{height}
use corecommon.BTree.Sorted.{
  AllBelow, AllAbove, IsSorted, asym, AllBelow-append, AllAbove-append, AllBelow-split,
  AllBelow-mono, AllAbove-mono, IsSorted-split,
}

module _ {ℓ} {K V : Type ℓ} ⦃compare : Compare K⦄ where
  -- The key may stand in the subtree at the end of the path.
  abbrev pub LiesAt : K → List (Frame K V) → Type 0
  LiesAt k p = AllBelow k (before p) × AllAbove k (behind p)

  -- A node that is equal, or has no child on the side of the key.
  abbrev pub EndsSearch : K → Tree K V → Type 0
  EndsSearch k leaf = 1 ≤ 0
  EndsSearch k (node d x v l r) =
      ((compare.less k x ≡ true) × (is_node l ≡ false))
      ⊎ ((compare.less k x ≡ false)
          × (((compare.less x k ≡ true) × (is_node r ≡ false)) ⊎ (compare.less x k ≡ false)))

  -- A node of the tree `whole`, in a subtree of height `h`, at which the search for `k` may end.
  pub record IsFound (k : K) (whole : Tree K V) (h : ℕ) (at : Place K V) : Type ℓ where
    pub same_tree : plug at.path at.focus ≡ whole
    pub lies : LiesAt k at.path
    pub sorted : IsSorted (entries at.focus)
    pub low : height at.focus ≤ h
    pub ends : EndsSearch k at.focus

  go_left :
      (k : K) (p : List (Frame K V)) (d : ℤ) (x : K) (v : V) (l r : Tree K V)
      → compare.less x k ≡ false
      → IsSorted (entries (node d x v l r))
      → LiesAt k p
      → LiesAt k (left_of d x v r ∷ p)
  go_left k p d x v l r le s (below, above) =
      let (_, _, ar, _) = IsSorted-split (entries l) x v (entries r) s in
      (
        below,
        (le, AllAbove-append k (entries r) (behind p) (AllAbove-mono x k (entries r) le ar) above),
      )

  pub go_right :
      (k : K) (p : List (Frame K V)) (d : ℤ) (x : K) (v : V) (l r : Tree K V)
      → compare.less k x ≡ false
      → IsSorted (entries (node d x v l r))
      → LiesAt k p
      → LiesAt k (right_of d x v l ∷ p)
  go_right k p d x v l r le s (below, above) =
      let (_, bl, _, _) = IsSorted-split (entries l) x v (entries r) s in
      (
        AllBelow-append k (before p) (entries l ++ (x, v) ∷ []) below (
            AllBelow-append k (entries l) ((x, v) ∷ []) (AllBelow-mono x k (entries l) le bl)
              (le, omega arith)),
        above,
      )

  pub descend-IsFound :
      (k : K) (whole : Tree K V) (h : ℕ) (p : List (Frame K V)) (t : Tree K V)
      → is_node t ≡ true
      → plug p t ≡ whole
      → LiesAt k p
      → IsSorted (entries t)
      → height t ≤ h
      → IsFound k whole h (descend k p t)
  unfolding descend
  descend-IsFound k whole h p leaf some_node e at s low = absurd (ground (arith, some_node))
  descend-IsFound k whole h p (node d x v l r) some_node e at s low =
      let P = IsFound k whole h in
      let (sl, _, _, sr) = IsSorted-split (entries l) x v (entries r) s in
      if-cases P (is_node l && compare.less k x) _ _
        (λ b.
          descend-IsFound k whole h (left_of d x v r ∷ p) l (ground (arith, b)) e
            (go_left k p d x v l r (asym k x (ground (arith, b))) s at) sl (omega arith))
        λ c.
          if-cases P (compare.less x k && is_node r) _ _
            (λ b.
              descend-IsFound k whole h (right_of d x v l ∷ p) r (ground (arith, b)) e
                (go_right k p d x v l r (asym x k (ground (arith, b))) s at) sr (omega arith))
            λ b. record {
              same_tree = e;
              lies = at;
              sorted = s;
              low = low;
              ends = elim (Bool-cases (compare.less k x)) [
                | inl lt ↦ inl (lt, ground (arith, c, lt))
                | inr ge ↦ inr (
                  ge,
                  elim (Bool-cases (compare.less x k)) [
                    | inl gt ↦ inl (gt, ground (arith, b, gt))
                    | inr le ↦ inr le
                  ],
                )
              ];
            }

  first_equal-IsFound :
      (k : K) (whole : Tree K V) (h : ℕ) (best : Place K V) (p : List (Frame K V)) (t : Tree K V)
      → IsFound k whole h best
      → plug p t ≡ whole
      → LiesAt k p
      → IsSorted (entries t)
      → AllBelow k (entries t)
      → height t ≤ h
      → (at : Place K V) × (first_equal k best p t ≡ some at) × IsFound k whole h at
  unfolding first_equal
  first_equal-IsFound k whole h best p leaf f e at s below low = (best, refl, f)
  first_equal-IsFound k whole h best p (node d x v l r) f e at s below low =
      let Q = λ (o : Option (Place K V)). (at : Place K V) × (o ≡ some at) × IsFound k whole h at in
      let (sl, _, _, sr) = IsSorted-split (entries l) x v (entries r) s in
      let (bl, (le, br)) = AllBelow-split k (entries l) ((x, v) ∷ entries r) below in
      if-cases Q (same k x) _ _
        (λ b.
          let ge : compare.less x k ≡ false = ground (arith, b) in
          first_equal-IsFound k whole h (record { path = p; focus = node d x v l r })
            (left_of d x v r ∷ p) l
            (record { same_tree = e; lies = at; sorted = s; low = low; ends = inr (le, inr ge) }) e
            (go_left k p d x v l r ge s at) sl bl (omega arith))
        λ c.
          if-cases Q (compare.less x k) _ _
            (λ b.
              first_equal-IsFound k whole h best (right_of d x v l ∷ p) r f e
                (go_right k p d x v l r le s at) sr br (omega arith))
            λ b. absurd (ground (arith, b, c, le))

  first_from-IsFound :
      (k : K) (whole : Tree K V) (h : ℕ) (p : List (Frame K V)) (t : Tree K V)
      → IsFound k whole h (record { path = p; focus = t })
      → (at : Place K V) × (first_from k (record { path = p; focus = t }) ≡ some at)
        × IsFound k whole h at
  unfolding first_from
  first_from-IsFound k whole h p leaf f = (_, refl, f)
  first_from-IsFound k whole h p (node d x v l r) f =
      let at : Place K V = record { path = p; focus = node d x v l r } in
      let Q = λ (o : Option (Place K V)). (at : Place K V) × (o ≡ some at) × IsFound k whole h at in
      let (sl, bl, _, _) = IsSorted-split (entries l) x v (entries r) f.sorted in
      if-cases Q (same k x) _ _
        (λ b.
          let le : compare.less k x ≡ false = ground (arith, b) in
          let ge : compare.less x k ≡ false = ground (arith, b) in
          first_equal-IsFound k whole h at (left_of d x v r ∷ p) l f f.same_tree
            (go_left k p d x v l r ge f.sorted f.lies) sl (AllBelow-mono x k (entries l) le bl)
            (omega (arith, f.low)))
        λ _. (at, refl, f)

  -- `find` below a path around which the key lies.
  pub find-IsFound :
      (k : K) (p : List (Frame K V)) (t : Tree K V)
      → is_node t ≡ true
      → LiesAt k p
      → IsSorted (entries t)
      → (at : Place K V) × (find k p t ≡ some at) × IsFound k (plug p t) (height t) at
  unfolding find
  find-IsFound k p t some_node lies s =
      let at = descend k p t in
      first_from-IsFound k (plug p t) (height t) at.path at.focus
        (descend-IsFound k (plug p t) (height t) p t some_node refl lies s (omega arith))
