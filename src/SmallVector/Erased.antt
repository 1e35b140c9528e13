-- ===== src/SmallVector/Erased.antt =====
-- `erase` and `pop_back` of src/smallvector.hpp.
use corecommon.Common.{
  ℕ, zero, suc, ◌+◌, ◌-◌, ◌≤◌, ◌<◌, List, [], ◌∷◌, ◌++◌, length, get_or, set, take, drop, ◌≡◌, refl,
  sym, ap, ◌∙◌, arith, append_assoc, append-nil, length-append, length-take, length-drop, take-all,
  take-append, take-take, drop-take, drop-cons, drop-drop, drop-all,
}
use corecommon.SmallVector.Buffer.{SmallVector}
use corecommon.SmallVector.Pointer.{Ptr, position, end, retreat}
use corecommon.SmallVector.Editing.{move_forward, erase, pop_back}
use corecommon.SmallVector.Positions.{IsPlaced, end-position, retreat-position}
use corecommon.SmallVector.Contents.{
  space, contents, IsValid, slide, space-move_forward, len-move_forward,
}

module _ {ℓ} {T : Type ℓ} (blank : T) where
  slide-cons :
      (n a b : ℕ) (x : T) (xs : List T)
      → slide blank n (suc a) (suc b) (x ∷ xs) ≡ x ∷ slide blank n a b xs
  slide-cons zero a b x xs = refl
  slide-cons (suc n) a b x xs =
      let ea : suc a + 1 ≡ suc (a + 1) = omega arith in
      let eb : suc b + 1 ≡ suc (b + 1) = omega arith in
      ap (λ i. slide blank n i (suc b + 1) (x ∷ set xs b (get_or xs a blank))) ea
      ∙ (ap (λ i. slide blank n (suc (a + 1)) i (x ∷ set xs b (get_or xs a blank))) eb
          ∙ slide-cons n (a + 1) (b + 1) x (set xs b (get_or xs a blank)))

  slide-front :
      (n k : ℕ) (xs : List T)
      → k + n ≤ length xs
      → slide blank n k 0 xs ≡ take n (drop k xs) ++ drop n xs
  slide-front zero k xs h = refl
  slide-front (suc n) k [] h = absurd (omega arith)
  slide-front (suc n) k (x ∷ xs) h =
      let y = get_or (x ∷ xs) k blank in
      let e : k + 1 ≡ suc k = omega arith in
      ap (λ i. slide blank n i 1 (y ∷ xs)) e
      ∙ (slide-cons n k 0 y xs
          ∙ (ap (λ t. y ∷ t) (slide-front n k xs (omega arith))
              ∙ ap (λ t. take (suc n) t ++ drop n xs)
                  (sym (drop-cons k (x ∷ xs) blank (omega arith)))))

  slide-take :
      (b n k : ℕ) (xs : List T)
      → b ≤ length xs
      → slide blank n (b + k) b xs ≡ take b xs ++ slide blank n k 0 (drop b xs)
  slide-take zero n k xs h = let e : 0 + k ≡ k = omega arith in ap (λ i. slide blank n i 0 xs) e
  slide-take (suc b) n k [] h = absurd (omega arith)
  slide-take (suc b) n k (x ∷ xs) h =
      let e : suc b + k ≡ suc (b + k) = omega arith in
      ap (λ i. slide blank n i (suc b) (x ∷ xs)) e
      ∙ (slide-cons n (b + k) b x xs ∙ ap (λ t. x ∷ t) (slide-take b n k xs (omega arith)))

  -- The list without the elements between two places, of which the last `k` are then cut off.
  take-slide :
      (b k n : ℕ) (xs : List T)
      → b + k + n ≤ length xs
      → take (b + n) (slide blank n (b + k) b xs) ≡ take b xs ++ take n (drop k (drop b xs))
  take-slide b k n xs h =
      let front = take b xs in
      let moved = take n (drop k (drop b xs)) in
      let rest = drop n (drop b xs) in
      let len_front : length front ≡ b = omega (arith, length-take b xs) in
      let len_moved : length moved ≡ n =
        omega (
          arith,
          length-take n (drop k (drop b xs)),
          length-drop k (drop b xs),
          length-drop b xs,
        ) in
      let len_both : length (front ++ moved) ≡ b + n =
        omega (arith, length-append front moved, len_front, len_moved) in
      ap (take (b + n)) (
        slide-take b n k xs (omega arith)
        ∙ (ap (λ t. front ++ t) (slide-front n k (drop b xs) (omega (arith, length-drop b xs)))
            ∙ sym (append_assoc front moved rest)))
      ∙ (take-append (b + n) (front ++ moved) rest (omega (arith, len_both))
          ∙ take-all (front ++ moved) (b + n) (omega (arith, len_both)))

  length-space : (v : SmallVector T) → IsValid v → v.len ≤ length (space v)
  length-space v h = omega (arith, length-append v.arr v.heap, h.all_heap, h.inside)

  -- `erase` of the elements between two iterators of a valid vector leaves the elements before the
  -- first and those from the second on, wherever the two stand.
  pub erase-contents :
      (v : SmallVector T) (p q : Ptr)
      → IsValid v
      → IsPlaced v p
      → IsPlaced v q
      → position v p ≤ position v q
      → position v q ≤ v.len
      → contents (erase blank v p q)
        ≡ take (position v p) (contents v) ++ drop (position v q) (contents v)
  unfolding erase
  erase-contents v p q valid hp hq le inside =
      let b = position v p in
      let k = position v q - b in
      let n = position v (end v) - position v q in
      let xs = space v in
      let (_, e_end) = end-position v in
      let whole = length-space v valid in
      let e_n : n ≡ v.len - position v q = omega (arith, e_end) in
      let e_q : position v q ≡ b + k = omega arith in
      let e_len : (move_forward blank n q p v).len - k ≡ b + n =
        omega (arith, len-move_forward blank n q p v, e_n) in
      ap (λ i. take i (space (move_forward blank n q p v))) e_len
      ∙ (ap (take (b + n))
            (space-move_forward blank n q p v hq hp ∙ ap (λ i. slide blank n i b xs) e_q)
          ∙ (take-slide b k n xs (omega (arith, whole, e_n))
              ∙ (ap (λ t. t ++ take n (drop k (drop b xs)))
                    (sym (take-take b v.len xs (omega arith)))
                  ∙ ap (λ t. take b (take v.len xs) ++ t)
                      (ap (take n) (sym (drop-drop b k xs) ∙ ap (λ i. drop i xs) (sym e_q))
                        ∙ (ap (λ i. take i (drop (position v q) xs)) e_n
                            ∙ sym (drop-take (position v q) v.len xs))))))

  -- `pop_back` of a valid vector that is not empty leaves the elements but the last.
  pop_back-contents :
      (v : SmallVector T)
      → IsValid v
      → 0 < v.len
      → contents (pop_back blank v) ≡ take (v.len - 1) (contents v)
  unfolding pop_back
  pop_back-contents v valid pos =
      let (h_end, e_end) = end-position v in
      let (h_last, e_last) = retreat-position v (end v) 1 h_end (omega (arith, e_end)) in
      let whole = length-space v valid in
      let nothing : drop (position v (end v)) (contents v) ≡ [] =
        drop-all (contents v) (position v (end v))
          (omega (arith, length-take v.len (space v), e_end)) in
      erase-contents v (retreat v (end v) 1) (end v) valid h_last h_end (omega (arith, e_last))
        (omega (arith, e_end))
      ∙ (ap (λ t. take (position v (retreat v (end v) 1)) (contents v) ++ t) nothing
          ∙ (append-nil (take (position v (retreat v (end v) 1)) (contents v))
              ∙ ap (λ i. take i (contents v)) (omega (arith, e_last, e_end))))
