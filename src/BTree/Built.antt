-- ===== src/BTree/Built.antt =====
-- The trees of src/btree.hpp that `insert` and `remove` make, and how deep they are.
use corecommon.Common.{
  ℕ, suc, ◌+◌, ◌/◌, ◌^◌, ◌≤◌, ℤ, List, ◌∷◌, ◌++◌, length, length-append, append_assoc, some, Gives,
  ◌≡◌, refl, sym, ap, ◌∙◌, arith,
}
use mathlib.Core.Path.{subst}
use corecommon.BTree.Tree.{Compare, Tree, leaf, node, Frame, plug, entries}
use corecommon.BTree.Changing.{insert, remove}
use corecommon.BTree.InOrder.{before, behind}
use corecommon.BTree.Balance.{height, IsAvl}
use corecommon.BTree.Sorted.{IsSorted, IsSorted-delete}
use corecommon.BTree.Inserted.{insert-Inserted}
use corecommon.BTree.Removed.{remove-IsAvl}
use corecommon.BTree.Bounds.{height-entries}

module _ {ℓ} {K V : Type ℓ} ⦃compare : Compare K⦄ where
  -- The trees that n more insertions than removals make from the empty tree, in any order. A node to
  -- remove is given by its place; `insert` has at least the height as fuel.
  pub data Built : Tree K V → ℕ → Type ℓ where
    empty : Built leaf 0
    inserted :
        (fuel n : ℕ) (t t' : Tree K V) (k : K) (v : V)
        → Built t n
        → height t ≤ fuel
        → insert fuel t k v ≡ some t'
        → Built t' (suc n)
    removed :
        (n : ℕ) (p : List (Frame K V)) (d : ℤ) (x : K) (v : V) (l r : Tree K V)
        → Built (plug p (node d x v l r)) (suc n)
        → Built (remove (record { path = p; focus = node d x v l r })) n

  -- Balanced, sorted, and with n nodes.
  abbrev IsSound : ℕ → Tree K V → Type 0
  IsSound n t = IsAvl t × IsSorted (entries t) × (length (entries t) ≡ n)

  insert-IsSound :
      (fuel n : ℕ) (t : Tree K V) (k : K) (v : V)
      → IsSound n t
      → height t ≤ fuel
      → Gives (IsSound (suc n)) (insert fuel t k v)
  insert-IsSound fuel n t k v (avl, s, count) enough =
      let (t', ends, avl', s', i) = insert-Inserted fuel t k v enough avl s in
      let old_count : length i.front + length i.back ≡ n =
        sym (length-append i.front i.back) ∙ (ap length (sym i.was) ∙ count) in
      let new_count : length (entries t') ≡ length i.front + suc (length i.back) =
        ap length i.is ∙ length-append i.front ((k, v) ∷ i.back) in
      subst (Gives (IsSound (suc n))) (sym ends) (avl', s', omega (arith, old_count, new_count))

  join_with :
      (a b c d : List (K × V)) (e : K × V) → a ++ ((b ++ e ∷ c) ++ d) ≡ (a ++ b) ++ e ∷ (c ++ d)
  join_with a b c d e =
      ap (λ z. a ++ z) (append_assoc b (e ∷ c) d) ∙ sym (append_assoc a b (e ∷ (c ++ d)))

  join_without : (a b c d : List (K × V)) → a ++ ((b ++ c) ++ d) ≡ (a ++ b) ++ (c ++ d)
  join_without a b c d = ap (λ z. a ++ z) (append_assoc b c d) ∙ sym (append_assoc a b (c ++ d))

  remove-IsSound :
      (n : ℕ) (p : List (Frame K V)) (d : ℤ) (x : K) (v : V) (l r : Tree K V)
      → IsSound (suc n) (plug p (node d x v l r))
      → IsSound n (remove (record { path = p; focus = node d x v l r }))
  remove-IsSound n p d x v l r (avl, s, count) =
      let (avl', was, is) = remove-IsAvl p d x v l r avl in
      let xs = before p ++ entries l in
      let ys = entries r ++ behind p in
      let old = was ∙ join_with (before p) (entries l) (entries r) (behind p) (x, v) in
      let new = is ∙ join_without (before p) (entries l) (entries r) (behind p) in
      let old_count : suc n ≡ length xs + suc (length ys) =
        sym count ∙ (ap length old ∙ length-append xs ((x, v) ∷ ys)) in
      let new_count : length (entries (remove (record { path = p; focus = node d x v l r })))
          ≡ length xs + length ys =
        ap length new ∙ length-append xs ys in
      (
        avl',
        subst IsSorted (sym new) (IsSorted-delete xs (x, v) ys (subst IsSorted old s)),
        omega (arith, old_count, new_count),
      )

  Built-IsSound : (t : Tree K V) (n : ℕ) → Built t n → IsSound n t
  Built-IsSound _ _ empty = (omega arith, omega arith, refl)
  Built-IsSound _ _ (inserted fuel n t t' k v b enough ends) =
      subst (Gives (IsSound (suc n))) ends
        (insert-IsSound fuel n t k v (Built-IsSound t n b) enough)
  Built-IsSound _ _ (removed n p d x v l r b) =
      remove-IsSound n p d x v l r (Built-IsSound (plug p (node d x v l r)) (suc n) b)

  -- Every tree that `insert` and `remove` make from the empty tree, in any order, is balanced and
  -- sorted; it has as many nodes as there were insertions more than removals, say n, and is at most
  -- 2 log2 (n + 1) + 1 high.
  pub height-Built :
      (t : Tree K V) (n : ℕ)
      → Built t n
      → IsAvl t × IsSorted (entries t) × (length (entries t) ≡ n) × (2 ^ (height t / 2) ≤ n + 1)
  height-Built t n b =
      let (avl, s, count) = Built-IsSound t n b in
      (avl, s, count, subst (λ m. 2 ^ (height t / 2) ≤ m + 1) count (height-entries t avl))
