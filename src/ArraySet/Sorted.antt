-- ===== src/ArraySet/Sorted.antt =====
-- The sorting of src/arrayset.hpp keeps the numbers and puts them in descending order.
use corecommon.Common.{
  ℕ, suc, ◌<◌, ◌≡◌, ◌≢◌, refl, ap, ◌∙◌, List, [], ◌∷◌, length, arith, leb, In, here, there, In-cons,
  ◌↔◌, Bool-cases, inl, inr,
}
use corecommon.ArraySet.Sets.{insert_down, sort_down}

unfoldable pub AreBelow : ℕ → List ℕ → Type 0
AreBelow m xs = (x : ℕ) → In x xs → x < m

unfoldable pub IsDistinct : List ℕ → Type 0
IsDistinct [] = Unit
IsDistinct (x ∷ xs) = (¬ (In x xs)) × IsDistinct xs

-- Numbers below m, each below the one in front of it.
unfoldable pub IsDescending : ℕ → List ℕ → Type 0
IsDescending m [] = Unit
IsDescending m (x ∷ xs) = (x < m) × IsDescending x xs

length-insert_down : (x : ℕ) (xs : List ℕ) → length (insert_down x xs) ≡ suc (length xs)
unfolding insert_down
length-insert_down x [] = refl
length-insert_down x (y ∷ ys) = elim (Bool-cases (leb y x)) [
  | inl e ↦ rw e refl
  | inr e ↦ rw e (ap suc (length-insert_down x ys))
]

pub length-sort_down : (xs : List ℕ) → length (sort_down xs) ≡ length xs
unfolding sort_down
length-sort_down [] = refl
length-sort_down (x ∷ xs) = length-insert_down x (sort_down xs) ∙ ap suc (length-sort_down xs)

In-insert_down : (x z : ℕ) (xs : List ℕ) → In z (insert_down x xs) ↔ In z (x ∷ xs)
unfolding insert_down
In-insert_down x z [] = ((λ h. h), (λ h. h))
In-insert_down x z (y ∷ ys) = elim (Bool-cases (leb y x)) [
  | inl e ↦ rw e ((λ h. h), (λ h. h))
  | inr e ↦
      let (forth, back) = In-insert_down x z ys in
      rw e (
        (λ h. elim (In-cons h) [
          | inl same ↦ there (here same)
          | inr later ↦ elim (In-cons (forth later)) [
            | inl same ↦ here same
            | inr more ↦ there (there more)
          ]
        ]),
        (λ h. elim (In-cons h) [
          | inl same ↦ there (back (here same))
          | inr later ↦ elim (In-cons later) [
            | inl same ↦ here same
            | inr more ↦ there (back (there more))
          ]
        ]),
      )
]

pub In-sort_down : (z : ℕ) (xs : List ℕ) → In z (sort_down xs) ↔ In z xs
unfolding sort_down
In-sort_down z [] = ((λ h. h), (λ h. h))
In-sort_down z (x ∷ xs) =
    let (forth, back) = In-sort_down z xs in
    let (out, into) = In-insert_down x z (sort_down xs) in
    (
      (λ h. elim (In-cons (out h)) [ inl same ↦ here same | inr later ↦ there (forth later) ]),
      (λ h. elim (In-cons h) [
        | inl same ↦ into (here same)
        | inr later ↦ into (there (back later))
      ]),
    )

insert_down-IsDescending :
    (m x : ℕ) (xs : List ℕ)
    → x < m
    → IsDescending m xs
    → ¬ (In x xs)
    → IsDescending m (insert_down x xs)
unfolding insert_down IsDescending
insert_down-IsDescending m x [] lt d out = (lt, tt)
insert_down-IsDescending m x (y ∷ ys) lt d out =
    let ne : y ≢ x = λ e. out (here e) in
    elim (Bool-cases (leb y x)) [
      | inl e ↦ rw e (lt, (ground arith, d.1))
      | inr e ↦ rw e (d.0, insert_down-IsDescending y x ys (ground arith) d.1 (λ h. out (there h)))
    ]

pub sort_down-IsDescending :
    (m : ℕ) (xs : List ℕ) → AreBelow m xs → IsDistinct xs → IsDescending m (sort_down xs)
unfolding sort_down IsDescending IsDistinct AreBelow
sort_down-IsDescending m [] below distinct = tt
sort_down-IsDescending m (x ∷ xs) below (fresh, distinct) =
    insert_down-IsDescending m x (sort_down xs) (below x (here refl))
      (sort_down-IsDescending m xs (λ z h. below z (there h)) distinct)
      (λ h. fresh ((In-sort_down x xs).0 h))
