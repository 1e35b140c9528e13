-- ===== src/SmallVector/Tests.antt =====
-- Runs of the vector of src/smallvector.hpp.
use corecommon.Common.{
  none, some, negsuc, ℕ, pos, [], ◌∷◌, ◌++◌, take, drop, replicate, ◌≡◌, refl, arith,
}
use corecommon.SmallVector.Buffer.{SmallVector, reserve, filled}
use corecommon.SmallVector.Pointer.{
  in_arr, in_data, end, increment, decrement, plus, minus, retreat,
}
use corecommon.SmallVector.Editing.{
  move_forward, move_backward, make_space, insert, push_back, erase,
}
use corecommon.SmallVector.Contents.{contents, IsValid}
use corecommon.SmallVector.Erased.{erase-contents}
use corecommon.SmallVector.Sized.{filled-replicate}
use corecommon.SmallVector.Pushed.{push_back-contents}
use corecommon.SmallVector.Inserted.{insert-contents}

-- Two elements inline and four in the buffer, which has room for five.
abbrev six : SmallVector ℕ
six = record { arr = 1 ∷ 2 ∷ []; heap = 3 ∷ 4 ∷ 5 ∷ 6 ∷ 0 ∷ []; cap = 5; len = 6 }

six-IsValid : IsValid six
six-IsValid = record {
  some_arr = omega arith;
  all_heap = refl;
  inside = omega arith;
  small = omega arith;
}

inserts_inline : contents (insert 0 six (in_arr 1) 9) ≡ 1 ∷ 9 ∷ 2 ∷ 3 ∷ 4 ∷ 5 ∷ 6 ∷ []
unfolding insert make_space reserve move_backward end retreat decrement
inserts_inline = refl

-- An insertion into the buffer moves one element only, onto the next.
loses : contents (insert 0 six (in_data 0) 9) ≡ 1 ∷ 2 ∷ 9 ∷ 3 ∷ 5 ∷ 6 ∷ 0 ∷ []
unfolding insert make_space reserve move_forward increment
loses = refl

push_back-contents_example : contents (push_back 0 six 7) ≡ contents six ++ 7 ∷ []
push_back-contents_example = push_back-contents 0 six 7 six-IsValid

erase-contents_example :
    contents (erase 0 six (in_arr 1) (in_data 2)) ≡ take 1 (contents six) ++ drop 4 (contents six)
erase-contents_example =
    erase-contents 0 six (in_arr 1) (in_data 2) six-IsValid (omega arith) (omega arith)
      (omega arith) (omega arith)

-- Adding -1 to the first element of the buffer does not give the last inline element.
one_back :
    (plus six (in_data 0) (negsuc 0) ≡ none) × (minus six (in_data 0) (pos 1) ≡ some (in_arr 1))
unfolding plus minus retreat
one_back = (refl, refl)

insert-contents_example :
    contents (insert 0 six (in_arr 1) 9) ≡ take 1 (contents six) ++ 9 ∷ drop 1 (contents six)
insert-contents_example = insert-contents 0 six 1 9 six-IsValid (omega arith) (omega arith)

abbrev sevens : SmallVector ℕ
sevens = filled 0 2 5 7

filled-replicate_example : IsValid sevens × (contents sevens ≡ replicate 5 7)
filled-replicate_example = filled-replicate 0 2 5 7 (omega arith) (omega arith)
