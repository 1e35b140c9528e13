-- ===== src/BTree/Inserted.antt =====
-- `insert` of src/btree.hpp on a sorted and balanced tree.
use corecommon.Common.{
  ℕ, zero, suc, ◌≤◌, ◌<◌, ℤ, pos, true, false, ◌||◌, List, [], ◌∷◌, ◌++◌, Option, some, ◌≡◌, refl,
  sym, ap, ◌∙◌, append_assoc, arith, if-cases, inl, inr,
}
use mathlib.Core.Path.{subst}
use corecommon.BTree.Tree.{
  Compare, Tree, leaf, node, Frame, left_of, right_of, is_node, plug, entries,
}
use corecommon.BTree.Rotating.{rebalance}
use corecommon.BTree.Changing.{insert_at, insert_node, insert}
use corecommon.BTree.InOrder.{before, behind, entries-plug, entries-rebalance}
use corecommon.BTree.Balance.{height, IsAvl}
use corecommon.BTree.Rebalanced.{FitsPath, rebalance-IsAvl}
use corecommon.BTree.Sorted.{
  AllBelow, AllAbove, IsSorted, asym, AllAbove-append, AllAbove-mono, IsSorted-split,
  IsSorted-insert,
}
use corecommon.BTree.Found.{LiesAt, EndsSearch, go_right, find-IsFound}

module _ {ℓ} {K V : Type ℓ} where
  -- What a balanced tree says of a place in it.
  pub unplug :
      (p : List (Frame K V)) (t : Tree K V) → IsAvl (plug p t) → IsAvl t × FitsPath p (height t)
  unplug [] t avl = (avl, omega arith)
  unplug (left_of d x v r ∷ p) t avl =
      let ((diff, at, ar), fits) = unplug p (node d x v t r) avl in (at, (diff, ar, fits))
  unplug (right_of d x v l ∷ p) t avl =
      let ((diff, al, at), fits) = unplug p (node d x v l t) avl in (at, (diff, al, fits))

module _ {ℓ} {K V : Type ℓ} ⦃compare : Compare K⦄ where
  -- The new list has the entry in a place that the order allows, and the others as before.
  pub record Inserted (k : K) (v : V) (old new : List (K × V)) : Type ℓ where
    pub front : List (K × V)
    pub back : List (K × V)
    pub was : old ≡ front ++ back
    pub is : new ≡ front ++ (k, v) ∷ back
    pub below : AllBelow k front
    pub above : AllAbove k back

  -- A tree that is `whole` with the entry, and balanced.
  abbrev Result : (k : K) (v : V) (whole : Tree K V) → Option (Tree K V) → Type ℓ
  Result k v whole o =
      (t : Tree K V) × (o ≡ some t) × IsAvl t × Inserted k v (entries whole) (entries t)

  insert_left :
      (k : K) (v : V) (p : List (Frame K V)) (d : ℤ) (x : K) (w : V) (r : Tree K V)
      → IsAvl (plug p (node d x w leaf r))
      → compare.less k x ≡ true
      → IsSorted (entries (node d x w leaf r))
      → LiesAt k p
      → Result k v
          (plug p (node d x w leaf r))
          (some (rebalance p (node d x w (node (pos 0) k v leaf leaf) r) false false))
  insert_left k v p d x w r avl lt s (below, above) =
      let ((diff, _, ar), fits) = unplug p (node d x w leaf r) avl in
      let ge = asym k x lt in
      let (ax, _) = s in
      (
        _,
        refl,
        rebalance-IsAvl p d x w (node (pos 0) k v leaf leaf) r false false 0 (height r) diff
            (omega arith, refl) ((omega arith, omega arith), omega arith, omega arith) ar fits,
        record {
          front = before p;
          back = (x, w) ∷ entries r ++ behind p;
          was = entries-plug p (node d x w leaf r);
          is = entries-rebalance p _ false false;
          below = below;
          above = (
            ge,
            AllAbove-append k (entries r) (behind p) (AllAbove-mono x k (entries r) ge ax) above,
          );
        },
      )

  insert_right :
      (k : K) (v : V) (p : List (Frame K V)) (d : ℤ) (x : K) (w : V) (l : Tree K V)
      → IsAvl (plug p (node d x w l leaf))
      → compare.less k x ≡ false
      → IsSorted (entries (node d x w l leaf))
      → LiesAt k p
      → Result k v
          (plug p (node d x w l leaf))
          (some (rebalance p (node d x w l (node (pos 0) k v leaf leaf)) true false))
  insert_right k v p d x w l avl le s at =
      let ((diff, al, _), fits) = unplug p (node d x w l leaf) avl in
      let (below, above) = go_right k p d x w l leaf le s at in
      (
        _,
        refl,
        rebalance-IsAvl p d x w l (node (pos 0) k v leaf leaf) true false (height l) 0 diff
            (refl, omega arith) al ((omega arith, omega arith), omega arith, omega arith) fits,
        record {
          front = before p ++ (entries l ++ (x, w) ∷ []);
          back = behind p;
          was = entries-plug (right_of d x w l ∷ p) leaf;
          is =
              entries-rebalance p _ true false
              ∙ (ap (λ z. before p ++ z)
                    (append_assoc (entries l) ((x, w) ∷ (k, v) ∷ []) (behind p)
                      ∙ sym (append_assoc (entries l) ((x, w) ∷ []) ((k, v) ∷ behind p)))
                  ∙ sym (append_assoc (before p) (entries l ++ (x, w) ∷ []) ((k, v) ∷ behind p)));
          below = below;
          above = above;
        },
      )

  insert_at-Inserted :
      (deeper : List (Frame K V) → Tree K V → Option (Tree K V)) (k : K) (v : V)
      (p : List (Frame K V)) (t : Tree K V)
      → IsAvl (plug p t)
      → IsSorted (entries t)
      → LiesAt k p
      → EndsSearch k t
      → ((q : List (Frame K V)) (s : Tree K V)
          → is_node s ≡ true
          → height s < height t
          → plug q s ≡ plug p t
          → IsSorted (entries s)
          → LiesAt k q
          → Result k v (plug p t) (deeper q s))
      → Result k v (plug p t) (insert_at deeper (record { path = p; focus = t }) k v)
  unfolding insert_at
  insert_at-Inserted deeper k v p leaf avl s at ends ih = absurd (omega (arith, ends))
  insert_at-Inserted deeper k v p (node d x w (node e y u a b) r) avl s at (inl (lt, bare)) ih =
      absurd (ground (arith, bare))
  insert_at-Inserted deeper k v p (node d x w leaf r) avl s at (inl (lt, bare)) ih =
      rw (lt) (insert_left k v p d x w r avl lt s at)
  insert_at-Inserted deeper k v p (node d x w l leaf) avl s at (inr (ge, gt)) ih = rw (ge) (
      if-cases (Result k v (plug p (node d x w l leaf))) (compare.less x k || true) _ _
        (λ _. insert_right k v p d x w l avl ge s at) (λ bare. absurd (ground (arith, bare))))
  insert_at-Inserted deeper k v p (node d x w l (node e y u a b)) avl s at
        (inr (ge, inl (gt, bare))) ih =
      absurd (ground (arith, bare))
  insert_at-Inserted deeper k v p (node d x w l (node e y u a b)) avl s at (inr (ge, inr le)) ih =
      let (_, _, _, sr) = IsSorted-split (entries l) x w (entries (node e y u a b)) s in
      rw (ge, le)
        (ih (right_of d x w l ∷ p) (node e y u a b) refl (omega arith) refl sr
          (go_right k p d x w l (node e y u a b) ge s at))

  insert_node-Inserted :
      (fuel : ℕ) (k : K) (v : V) (p : List (Frame K V)) (t : Tree K V)
      → is_node t ≡ true
      → height t ≤ fuel
      → IsAvl (plug p t)
      → IsSorted (entries t)
      → LiesAt k p
      → Result k v (plug p t) (insert_node fuel p t k v)
  unfolding insert_node
  insert_node-Inserted zero k v p leaf some_node enough avl s at =
      absurd (ground (arith, some_node))
  insert_node-Inserted zero k v p (node d x w l r) some_node enough avl s at = absurd (omega arith)
  insert_node-Inserted (suc fuel) k v p t some_node enough avl s lies =
      let (at, e, f) = find-IsFound k p t some_node lies s in
      rw (e) (
        subst (λ whole. Result k v whole (insert_at (λ q u. insert_node fuel q u k v) at k v))
          f.same_tree
          (insert_at-Inserted (λ q u. insert_node fuel q u k v) k v at.path at.focus
            (subst IsAvl (sym f.same_tree) avl) f.sorted f.lies f.ends
            (λ q u some low same sorted here.
              subst (λ whole. Result k v whole (insert_node fuel q u k v)) same
                (insert_node-Inserted fuel k v q u some (omega (arith, low, f.low))
                  (subst IsAvl (sym (same ∙ f.same_tree)) avl) sorted here))))

  -- `Root::insert` on every sorted and balanced tree, with fuel of at least the height, ends with a
  -- sorted and balanced tree that has the new entry in a place that the order allows, and all
  -- others as before.
  pub insert-Inserted :
      (fuel : ℕ) (t : Tree K V) (k : K) (v : V)
      → height t ≤ fuel
      → IsAvl t
      → IsSorted (entries t)
      → (t' : Tree K V) × (insert fuel t k v ≡ some t')
        × IsAvl t'
        × IsSorted (entries t')
        × Inserted k v (entries t) (entries t')
  unfolding insert
  insert-Inserted fuel leaf k v enough avl s = (
    _,
    refl,
    ((omega arith, omega arith), omega arith, omega arith),
    (omega arith, omega arith),
    record {
      front = [];
      back = [];
      was = refl;
      is = refl;
      below = omega arith;
      above = omega arith;
    },
  )
  insert-Inserted fuel (node d x w l r) k v enough avl s =
      let (t', e, avl', i) =
        insert_node-Inserted fuel k v [] (node d x w l r) refl enough avl s
          (omega arith, omega arith) in
      (
        t',
        e,
        avl',
        subst IsSorted (sym i.is)
            (IsSorted-insert i.front i.back k v (subst IsSorted i.was s) i.below i.above),
        i,
      )
