-- ===== src/ArraySet/Tests.antt =====
-- Tests of src/arrayset.hpp, and the theorems about it applied to concrete sets.
use corecommon.Common.{
  In, In-cons, inl, inr, ◌↔◌, ◌≢◌, List, Option, some, ◌>>=◌, ◌<◌, length, ℕ, ◌<◌, ◌≡◌, refl, [],
  ◌∷◌, length, take, arith,
}
use corecommon.ArraySet.Sets.{
  ArraySet, array_set, insert_down, sort_down, add_up, out_index, reset, bump, increment, first_set,
  begin, read, write,
}
use corecommon.Util.Binomial.{binomial}
use corecommon.ArraySet.Sorted.{AreBelow, IsDistinct}
use corecommon.ArraySet.Ranked.{IsChoice, out_index-lt-length, out_index_injective}

abbrev index_of_pair : List ℕ → Option ℕ
index_of_pair idx = array_set {T = ℕ} 2 5 0 >>= λ s. out_index s idx

pair-IsChoice : (a b : ℕ) → a < 5 → b < 5 → b ≢ a → IsChoice 5 2 (a ∷ b ∷ [])
unfolding AreBelow IsDistinct
pair-IsChoice a b ha hb ne = record {
  below = λ z h. elim (In-cons h) [
    | inl e ↦ omega (arith, e)
    | inr later ↦ elim (In-cons later) [
      | inl e ↦ omega (arith, e)
      | inr none_left ↦ elim none_left [ ]
    ]
  ];
  distinct = (
    (λ h. elim (In-cons h) [ inl e ↦ ne e | inr none_left ↦ elim none_left [ ] ]),
    ((λ h. elim h [ ]), tt),
  );
  size = refl;
}

one_three-IsChoice : IsChoice 5 2 (1 ∷ 3 ∷ [])
one_three-IsChoice = pair-IsChoice 1 3 (omega arith) (omega arith) (omega arith)

three_one-IsChoice : IsChoice 5 2 (3 ∷ 1 ∷ [])
three_one-IsChoice = pair-IsChoice 3 1 (omega arith) (omega arith) (omega arith)

out_index-lt-length_example :
    (s : ArraySet ℕ) × (array_set 2 5 0 ≡ some s)
    × (i : ℕ) × (out_index s (1 ∷ 3 ∷ []) ≡ some i)
    × (i < length s.vec)
out_index-lt-length_example =
    out_index-lt-length 5 2 0 (omega arith) (omega arith) (omega arith) (1 ∷ 3 ∷ [])
      one_three-IsChoice

order_forgotten : index_of_pair (1 ∷ 3 ∷ []) ≡ index_of_pair (3 ∷ 1 ∷ [])
unfolding array_set out_index sort_down insert_down add_up binomial
order_forgotten = refl

out_index_injective_example :
    (sort_down (take 2 (1 ∷ 3 ∷ [])) ≡ sort_down (take 2 (3 ∷ 1 ∷ [])))
    × ((z : ℕ) → In z (1 ∷ 3 ∷ []) ↔ In z (3 ∷ 1 ∷ []))
out_index_injective_example =
    out_index_injective {T = ℕ} 5 2 0 (omega arith) (omega arith) (omega arith) (1 ∷ 3 ∷ [])
      (3 ∷ 1 ∷ []) one_three-IsChoice three_one-IsChoice order_forgotten

abbrev write_read : Option ℕ
write_read = do s ← array_set 2 5 0; s' ← write s (1 ∷ 3 ∷ []) 7; read s' (3 ∷ 1 ∷ []) 0

written : write_read ≡ some 7
unfolding array_set out_index sort_down read write binomial add_up insert_down
written = refl

-- Two elements: the sets in the order of the vector.
second_pair : (increment (begin {T = ℕ} (record { vec = []; elements = 2 }))).elem_vec ≡ 2 ∷ 0 ∷ []
unfolding begin increment bump reset first_set
second_pair = refl

-- Three elements: the second set is 3, 1, 0, and the iterator shows 3, 0, 1.
second_triple :
    (increment (begin {T = ℕ} (record { vec = []; elements = 3 }))).elem_vec ≡ 3 ∷ 0 ∷ 1 ∷ []
unfolding begin increment bump reset first_set
second_triple = refl
