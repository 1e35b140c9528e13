-- ===== src/Common/Slices.antt =====
-- Prefixes and suffixes of lists, and writes into a list in two parts.
use Prim.Native.Nat.{ℕ, zero, suc, ◌+◌, ◌-◌, ◌≤◌, ◌<◌}
use mathlib.Core.Path.{◌≡◌, refl, sym, ap, ◌∙◌}
use mathlib.Core.List.{List, [], ◌∷◌, ◌++◌}
use native.Mathlib.Omega.{arith}
use corecommon.Common.Lists.{length, get_or, set, take, drop}

module _ {ℓ} {A : Type ℓ} where
  pub get_or-append_left :
      (xs ys : List A) (i : ℕ) (d : A) → i < length xs → get_or (xs ++ ys) i d ≡ get_or xs i d
  get_or-append_left [] ys i d h = absurd (omega arith)
  get_or-append_left (x ∷ xs) ys zero d h = refl
  get_or-append_left (x ∷ xs) ys (suc i) d h = get_or-append_left xs ys i d (omega arith)

  pub get_or-append_right :
      (xs ys : List A) (i : ℕ) (d : A) → get_or (xs ++ ys) (length xs + i) d ≡ get_or ys i d
  get_or-append_right [] ys i d = ap (λ j. get_or ys j d) {x = 0 + i} (omega arith)
  get_or-append_right (x ∷ xs) ys i d =
      let e : suc (length xs) + i ≡ suc (length xs + i) = omega arith in
      ap (λ j. get_or (x ∷ xs ++ ys) j d) e ∙ get_or-append_right xs ys i d

  pub set-append_left :
      (xs ys : List A) (i : ℕ) (v : A) → i < length xs → set (xs ++ ys) i v ≡ set xs i v ++ ys
  set-append_left [] ys i v h = absurd (omega arith)
  set-append_left (x ∷ xs) ys zero v h = refl
  set-append_left (x ∷ xs) ys (suc i) v h =
      ap (λ t. x ∷ t) (set-append_left xs ys i v (omega arith))

  pub set-append_right :
      (xs ys : List A) (i : ℕ) (v : A) → set (xs ++ ys) (length xs + i) v ≡ xs ++ set ys i v
  set-append_right [] ys i v = ap (λ j. set ys j v) {x = 0 + i} (omega arith)
  set-append_right (x ∷ xs) ys i v =
      let e : suc (length xs) + i ≡ suc (length xs + i) = omega arith in
      ap (λ j. set (x ∷ xs ++ ys) j v) e ∙ ap (λ t. x ∷ t) (set-append_right xs ys i v)

  pub take-all : (xs : List A) (n : ℕ) → length xs ≤ n → take n xs ≡ xs
  take-all [] zero h = refl
  take-all [] (suc n) h = refl
  take-all (x ∷ xs) zero h = absurd (omega arith)
  take-all (x ∷ xs) (suc n) h = ap (λ t. x ∷ t) (take-all xs n (omega arith))

  pub take-append : (n : ℕ) (xs ys : List A) → n ≤ length xs → take n (xs ++ ys) ≡ take n xs
  take-append zero xs ys h = refl
  take-append (suc n) [] ys h = absurd (omega arith)
  take-append (suc n) (x ∷ xs) ys h = ap (λ t. x ∷ t) (take-append n xs ys (omega arith))

  -- The elements up to the one that is written.
  pub take-set :
      (n : ℕ) (xs : List A) (v : A)
      → n < length xs
      → take (suc n) (set xs n v) ≡ take n xs ++ v ∷ []
  take-set n [] v h = absurd (omega arith)
  take-set zero (x ∷ xs) v h = refl
  take-set (suc n) (x ∷ xs) v h = ap (λ t. x ∷ t) (take-set n xs v (omega arith))

  pub take-take : (m n : ℕ) (xs : List A) → m ≤ n → take m (take n xs) ≡ take m xs
  take-take zero n xs h = refl
  take-take (suc m) zero xs h = absurd (omega arith)
  take-take (suc m) (suc n) [] h = refl
  take-take (suc m) (suc n) (x ∷ xs) h = ap (λ t. x ∷ t) (take-take m n xs (omega arith))

  take-nil : (n : ℕ) → take {A = A} n [] ≡ []
  take-nil zero = refl
  take-nil (suc n) = refl

  pub drop-take : (m n : ℕ) (xs : List A) → drop m (take n xs) ≡ take (n - m) (drop m xs)
  drop-take zero n xs = let e : n ≡ n - 0 = omega arith in ap (λ k. take k xs) e
  drop-take (suc m) zero xs =
      let e : 0 - suc m ≡ 0 = omega arith in sym (ap (λ k. take k (drop (suc m) xs)) e)
  drop-take (suc m) (suc n) [] = sym (take-nil (suc n - suc m))
  drop-take (suc m) (suc n) (x ∷ xs) =
      let e : n - m ≡ suc n - suc m = omega arith in
      drop-take m n xs ∙ ap (λ k. take k (drop m xs)) e

  pub drop-cons :
      (k : ℕ) (xs : List A) (d : A) → k < length xs → drop k xs ≡ get_or xs k d ∷ drop (suc k) xs
  drop-cons k [] d h = absurd (omega arith)
  drop-cons zero (x ∷ xs) d h = refl
  drop-cons (suc k) (x ∷ xs) d h = drop-cons k xs d (omega arith)

  pub drop-all : (xs : List A) (n : ℕ) → length xs ≤ n → drop n xs ≡ []
  drop-all [] zero h = refl
  drop-all [] (suc n) h = refl
  drop-all (x ∷ xs) zero h = absurd (omega arith)
  drop-all (x ∷ xs) (suc n) h = drop-all xs n (omega arith)

  pub take-set_beyond : (n i : ℕ) (xs : List A) (v : A) → n ≤ i → take n (set xs i v) ≡ take n xs
  take-set_beyond zero i xs v h = refl
  take-set_beyond (suc n) i [] v h = refl
  take-set_beyond (suc n) zero (x ∷ xs) v h = absurd (omega arith)
  take-set_beyond (suc n) (suc i) (x ∷ xs) v h =
      ap (λ t. x ∷ t) (take-set_beyond n i xs v (omega arith))

  pub drop-set : (b i : ℕ) (xs : List A) (v : A) → drop b (set xs (b + i) v) ≡ set (drop b xs) i v
  drop-set zero i xs v = ap (λ j. set xs j v) {x = 0 + i} (omega arith)
  drop-set (suc b) i [] v = refl
  drop-set (suc b) i (x ∷ xs) v =
      let e : suc b + i ≡ suc (b + i) = omega arith in
      ap (λ j. drop (suc b) (set (x ∷ xs) j v)) e ∙ drop-set b i xs v

  pub take-next :
      (n : ℕ) (xs : List A) (d : A)
      → n < length xs
      → take (suc n) xs ≡ take n xs ++ get_or xs n d ∷ []
  take-next n [] d h = absurd (omega arith)
  take-next zero (x ∷ xs) d h = refl
  take-next (suc n) (x ∷ xs) d h = ap (λ t. x ∷ t) (take-next n xs d (omega arith))

  pub take-drop : (n : ℕ) (xs : List A) → take n xs ++ drop n xs ≡ xs
  take-drop zero xs = refl
  take-drop (suc n) [] = refl
  take-drop (suc n) (x ∷ xs) = ap (λ t. x ∷ t) (take-drop n xs)

  pub drop-set_head :
      (i : ℕ) (xs : List A) (v : A) → i < length xs → drop i (set xs i v) ≡ v ∷ drop (suc i) xs
  drop-set_head i [] v h = absurd (omega arith)
  drop-set_head zero (x ∷ xs) v h = refl
  drop-set_head (suc i) (x ∷ xs) v h = drop-set_head i xs v (omega arith)

  pub drop-length_append : (xs ys : List A) → drop (length xs) (xs ++ ys) ≡ ys
  drop-length_append [] ys = refl
  drop-length_append (x ∷ xs) ys = drop-length_append xs ys

  pub take-length_append : (xs ys : List A) → take (length xs) (xs ++ ys) ≡ xs
  take-length_append [] ys = refl
  take-length_append (x ∷ xs) ys = ap (λ t. x ∷ t) (take-length_append xs ys)

  pub take_split : (k n : ℕ) (xs : List A) → take k xs ++ take n (drop k xs) ≡ take (k + n) xs
  take_split zero n xs = ap (λ m. take m xs) {x = n} {y = 0 + n} (omega arith)
  take_split (suc k) n [] = take-nil n ∙ sym (take-nil (suc k + n))
  take_split (suc k) n (x ∷ xs) =
      let e : suc (k + n) ≡ suc k + n = omega arith in
      ap (λ t. x ∷ t) (take_split k n xs) ∙ ap (λ m. take m (x ∷ xs)) e
