-- ===== src/BTree/Tests.antt =====
-- Runs of the search tree of src/btree.hpp.
use corecommon.Common.{
  ℕ, ◌≤◌, ◌+◌, ◌/◌, ◌^◌, pos, ltb, true, false, List, [], ◌∷◌, ◌++◌, Option, some, ◌>>=◌, length,
  ◌≡◌, refl, arith,
}
use corecommon.BTree.Tree.{Compare, Tree, leaf, node, Place, entries}
use corecommon.BTree.Rotating.{
  rot_right, rot_left, after_rotation, round_right, round_left, round, rebalance,
}
use corecommon.BTree.Searching.{descend, first_equal, first_from, find}
use corecommon.BTree.Changing.{
  insert_at, insert_node, insert, replace_with, put_child, remove_from, remove,
}
use corecommon.BTree.Iterating.{begin, visited}
use corecommon.BTree.InOrder.{around}
use corecommon.BTree.Balance.{height, IsAvl}
use corecommon.BTree.Sorted.{IsSorted}
use corecommon.BTree.First.{FirstEqual, find-FirstEqual}
use corecommon.BTree.Inserted.{Inserted, insert-Inserted}
use corecommon.BTree.Removed.{remove-IsAvl}
use corecommon.BTree.Visited.{visited-begin}
use corecommon.BTree.Built.{Built, empty, inserted, removed, height-Built}

ltb_irrefl : (a : ℕ) → ltb a a ≡ false
ltb_irrefl a = ground arith

ltb_trans : (a b c : ℕ) → ltb a b ≡ true → ltb b c ≡ true → ltb a c ≡ true
ltb_trans a b c p q = ground arith

ltb_total : (a b c : ℕ) → ltb a b ≡ false → ltb b c ≡ false → ltb a c ≡ false
ltb_total a b c p q = ground arith

instance less_numbers : Compare ℕ
less_numbers = record { less = ltb; irrefl = ltb_irrefl; trans = ltb_trans; total = ltb_total }

abbrev one : ℕ → Tree ℕ ℕ → Tree ℕ ℕ → Tree ℕ ℕ
one k l r = node (pos 0) k 0 l r

-- Seven inserts in ascending order.
abbrev full : Tree ℕ ℕ
full = one 4 (one 2 (one 1 leaf leaf) (one 3 leaf leaf)) (one 6 (one 5 leaf leaf) (one 7 leaf leaf))

abbrev insert_all : List ℕ → Tree ℕ ℕ → Option (Tree ℕ ℕ)
insert_all [] t = some t
insert_all (k ∷ ks) t = insert 9 t k 0 >>= insert_all ks

ascending : insert_all (1 ∷ 2 ∷ 3 ∷ 4 ∷ 5 ∷ 6 ∷ 7 ∷ []) leaf ≡ some full
unfolding less_numbers insert insert_node insert_at find first_from first_equal descend rebalance
    round round_left round_right after_rotation rot_left rot_right
ascending = refl

-- The root, replaced by the leftmost node of its right child.
abbrev without_root : Tree ℕ ℕ
without_root =
    one 5 (one 2 (one 1 leaf leaf) (one 3 leaf leaf)) (node (pos 1) 6 0 leaf (one 7 leaf leaf))

removes_root : remove (record { path = []; focus = full }) ≡ without_root
unfolding remove remove_from replace_with put_child rebalance round round_left round_right
    after_rotation rot_left rot_right
removes_root = refl

full-IsSorted : IsSorted (entries full)
unfolding less_numbers
full-IsSorted = ground arith

full-IsAvl : IsAvl full
full-IsAvl = omega arith

insert-Inserted_example :
    (t : Tree ℕ ℕ) × (insert 9 full 8 80 ≡ some t)
    × IsAvl t
    × IsSorted (entries t)
    × Inserted 8 80 (entries full) (entries t)
insert-Inserted_example = insert-Inserted 9 full 8 80 (omega arith) full-IsAvl full-IsSorted

abbrev left_half : Tree ℕ ℕ
left_half = one 2 (one 1 leaf leaf) (one 3 leaf leaf)

abbrev right_half : Tree ℕ ℕ
right_half = one 6 (one 5 leaf leaf) (one 7 leaf leaf)

remove-IsAvl_example :
    IsAvl (remove (record { path = []; focus = full }))
    × (entries full ≡ around [] (entries left_half ++ (4, 0) ∷ entries right_half))
    × (entries (remove (record { path = []; focus = full }))
        ≡ around [] (entries left_half ++ entries right_half))
remove-IsAvl_example = remove-IsAvl [] (pos 0) 4 0 left_half right_half full-IsAvl

find-FirstEqual_example :
    (at : Place ℕ ℕ) × (find 5 [] full ≡ some at) × FirstEqual 5 (entries full) at
find-FirstEqual_example = find-FirstEqual 5 full refl full-IsSorted

visited-begin_example : visited (length (entries full) + 1) (begin full) ≡ some (entries full)
visited-begin_example = visited-begin full

-- The tree that inserting 1, 2 and 3 makes, and what removing its root leaves.
abbrev three : Tree ℕ ℕ
three = one 2 (one 1 leaf leaf) (one 3 leaf leaf)

abbrev chain : Tree ℕ ℕ
chain = node (pos 1) 1 0 leaf (one 2 leaf leaf)

abbrev two_left : Tree ℕ ℕ
two_left = remove (record { path = []; focus = three })

one_inserted : insert 9 leaf 1 0 ≡ some (one 1 leaf leaf)
unfolding insert
one_inserted = refl

two_inserted : insert 9 (one 1 leaf leaf) 2 0 ≡ some chain
unfolding less_numbers insert insert_node insert_at find first_from first_equal descend rebalance
    round round_left round_right after_rotation rot_left rot_right
two_inserted = refl

three_inserted : insert 9 chain 3 0 ≡ some three
unfolding less_numbers insert insert_node insert_at find first_from first_equal descend rebalance
    round round_left round_right after_rotation rot_left rot_right
three_inserted = refl

three-Built : Built three 3
three-Built =
    inserted 9 2 chain three 3 0
      (inserted 9 1 (one 1 leaf leaf) chain 2 0
        (inserted 9 0 leaf (one 1 leaf leaf) 1 0 empty (omega arith) one_inserted) (omega arith)
        two_inserted)
      (omega arith) three_inserted

height-Built_example :
    IsAvl two_left
    × IsSorted (entries two_left)
    × (length (entries two_left) ≡ 2)
    × (2 ^ (height two_left / 2) ≤ 2 + 1)
height-Built_example =
    height-Built two_left 2
      (removed 2 [] (pos 0) 2 0 (one 1 leaf leaf) (one 3 leaf leaf) three-Built)
