-- ===== src/ArraySet/Sets.antt =====
-- `ArraySet` of src/arrayset.hpp: an element for each set of `elements` numbers.
use corecommon.Common.{
  ℕ, zero, suc, ◌+◌, ◌-◌, ◌%◌, ◌^◌, ◌||◌, List, [], ◌∷◌, length, get_or, set, Option, some, ◌>>=◌,
  take, replicate, ltb, leb, ◌==◌, if◌then◌else◌,
}
use corecommon.Util.Binomial.{binomial}

pub record ArraySet (T : Type 0) : Type 0 where
  pub vec : List T
  pub elements : ℕ

-- `ArraySet(elements, len, value)`; the constructor without a value passes the default of the type.
-- Here and below, no result means that a loop of `binomial` does not end.
unfoldable pub array_set : {T : Type 0} → ℕ → ℕ → T → Option (ArraySet T)
array_set elements len x = do
  size ← binomial len elements
  some (record { vec = replicate size x; elements = elements })

-- `std::sort` and `std::reverse`.
unfoldable pub insert_down : ℕ → List ℕ → List ℕ
insert_down x [] = x ∷ []
insert_down x (y ∷ ys) = let rest = insert_down x ys in if leb y x then x ∷ y ∷ ys else y ∷ rest

unfoldable pub sort_down : List ℕ → List ℕ
sort_down [] = []
sort_down (x ∷ xs) = insert_down x (sort_down xs)

-- `out_i += binomial(elem_vec[i], elements-i)` over what is left of `elem_vec`, in a `size_t`.
unfoldable pub add_up : List ℕ → ℕ → Option ℕ
add_up [] out = some out
add_up (x ∷ xs) out = do count ← binomial x (suc (length xs)); add_up xs ((out + count) % 2 ^ 64)

unfoldable pub out_index : {T : Type 0} → ArraySet T → List ℕ → Option ℕ
out_index s idx = add_up (sort_down (take s.elements idx)) 0

-- `operator[]`, read and written through.
unfoldable pub read : {T : Type 0} → ArraySet T → List ℕ → T → Option T
read s idx default = do i ← out_index s idx; some (get_or s.vec i default)

unfoldable pub write : {T : Type 0} → ArraySet T → List ℕ → T → Option (ArraySet T)
write s idx x = do i ← out_index s idx; some (record s { vec = set s.vec i x })

-- `Iterator`; `t` is the index in the vector.
pub record Iterator : Type 0 where
  pub elem_vec : List ℕ
  pub t : ℕ

-- The loop that resets the entries behind i: `elem_vec[j] = j-i-1`.
unfoldable pub reset : ℕ → ℕ → ℕ → List ℕ → List ℕ
reset zero i j v = v
reset (suc rounds) i j v = reset rounds i (j + 1) (set v j (j - i - 1))

-- The loop over i, counted down; `n` is i + 1.
unfoldable pub bump : ℕ → List ℕ → List ℕ
bump zero v = v
bump (suc i) v =
    let rest = bump i v in
    let room = i == 0 || ltb (get_or v i 0) ((get_or v (i - 1) 0 + 2 ^ 64 - 1) % 2 ^ 64) in
    if room
    then reset (length v - (i + 1)) i (i + 1) (set v i ((get_or v i 0 + 1) % 2 ^ 64))
    else rest

-- `operator++`
unfoldable pub increment : Iterator → Iterator
increment it = record { elem_vec = bump (length it.elem_vec) it.elem_vec; t = it.t + 1 }

-- `elem_vec[i] = elements-i-1` for each i.
unfoldable pub first_set : ℕ → List ℕ
first_set zero = []
first_set (suc n) = n ∷ first_set n

unfoldable pub begin : {T : Type 0} → ArraySet T → Iterator
begin s = record { elem_vec = first_set s.elements; t = 0 }
