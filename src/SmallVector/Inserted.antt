-- ===== src/SmallVector/Inserted.antt =====
-- `insert` of src/smallvector.hpp in the inline space.
use corecommon.Common.{
  ℕ, zero, suc, ◌+◌, ◌-◌, ◌%◌, ◌^◌, ◌≤◌, ◌<◌, List, [], ◌∷◌, ◌++◌, length, get_or, set, take, drop,
  ◌≡◌, refl, sym, ap, ◌∙◌, arith, append_assoc, length-append, length-take, length-drop, length-set,
  get_or-drop, take-all, take-append, take-take, drop-take, take-drop, drop-set_head, drop-set,
  take-next, take-set_beyond, set-append_left, set-append_right,
}
use mathlib.Core.Path.{subst}
use corecommon.SmallVector.Buffer.{SmallVector, min_capacity, reserve}
use corecommon.SmallVector.Pointer.{Ptr, in_arr, position, decrement, end, retreat, read, write}
use corecommon.SmallVector.Editing.{move_backward, make_space, insert}
use corecommon.SmallVector.Positions.{IsPlaced, end-position, retreat-position, decrement-position}
use corecommon.SmallVector.Contents.{
  space, contents, IsValid, space-write, read-space, write-IsPlaced, position-write,
  min_capacity-write,
}
use corecommon.SmallVector.Pushed.{IsGrown, reserve-IsGrown, len-write}

module _ {ℓ} {T : Type ℓ} (blank : T) where
  -- The move of elements towards the back, on a list.
  abbrev slide_back : ℕ → (from to : ℕ) → List T → List T
  slide_back zero from to xs = xs
  slide_back (suc n) from to xs =
      slide_back n (from - 1) (to - 1) (set xs (to - 1) (get_or xs (from - 1) blank))

  space-move_backward :
      (n : ℕ) (p q : Ptr) (v : SmallVector T)
      → IsPlaced v p
      → IsPlaced v q
      → n ≤ position v p
      → n ≤ position v q
      → space (move_backward blank n p q v) ≡ slide_back n (position v p) (position v q) (space v)
  unfolding move_backward
  space-move_backward zero p q v h g a b = refl
  space-move_backward (suc n) p q v h g a b =
      let (hp, ep) = decrement-position v p h (omega arith) in
      let (hq, eq) = decrement-position v q g (omega arith) in
      let x = read blank v (decrement v p) in
      let w = write v (decrement v q) x in
      let e_from : position v (decrement v p) ≡ position v p - 1 = omega (arith, ep) in
      let e_to : position v (decrement v q) ≡ position v q - 1 = omega (arith, eq) in
      let e_x : x ≡ get_or (space v) (position v p - 1) blank =
        read-space blank v (decrement v p) hp ∙ ap (λ i. get_or (space v) i blank) e_from in
      let w_from = position-write v (decrement v q) (decrement v p) x in
      let w_to = position-write v (decrement v q) (decrement v q) x in
      space-move_backward n (decrement v p) (decrement v q) w
        (write-IsPlaced v (decrement v q) (decrement v p) x hp)
        (write-IsPlaced v (decrement v q) (decrement v q) x hq) (omega (arith, w_from, ep))
        (omega (arith, w_to, eq))
      ∙ (ap (λ i. slide_back n i (position w (decrement v q)) (space w)) (w_from ∙ e_from)
          ∙ (ap (λ i. slide_back n (position v p - 1) i (space w)) (w_to ∙ e_to)
              ∙ ap (slide_back n (position v p - 1) (position v q - 1)) (
                  space-write v (decrement v q) x hq
                  ∙ (ap (λ i. set (space v) i x) e_to
                      ∙ ap (set (space v) (position v q - 1)) e_x))))

  -- `n` elements from place `b` on, moved by one place.
  slide_back-take :
      (b n : ℕ) (xs : List T)
      → b + n + 1 ≤ length xs
      → slide_back n (b + n) (b + n + 1) xs
        ≡ take (b + 1) xs ++ (take n (drop b xs) ++ drop (b + n + 1) xs)
  slide_back-take b zero xs h =
      let e : b + 1 ≡ b + 0 + 1 = omega arith in
      sym (take-drop (b + 1) xs) ∙ ap (λ i. take (b + 1) xs ++ drop i xs) e
  slide_back-take b (suc n) xs h =
      let y = get_or xs (b + n) blank in
      let at = b + n + 1 in
      let moved = set xs at y in
      let e_from : b + suc n - 1 ≡ b + n = omega arith in
      let e_to : b + suc n + 1 - 1 ≡ at = omega arith in
      let e_at : at ≡ b + (n + 1) = omega arith in
      let e_last : suc at ≡ b + suc n + 1 = omega arith in
      let middle : take n (drop b moved) ≡ take n (drop b xs) =
        ap (λ i. take n (drop b (set xs i y))) e_at
        ∙ (ap (take n) (drop-set b (n + 1) xs y)
            ∙ take-set_beyond n (n + 1) (drop b xs) y (omega arith)) in
      let next : take n (drop b xs) ++ y ∷ drop (suc at) xs
          ≡ take (suc n) (drop b xs) ++ drop (suc at) xs =
        sym (append_assoc (take n (drop b xs)) (y ∷ []) (drop (suc at) xs))
        ∙ ap (λ t. t ++ drop (suc at) xs)
            (ap (λ z. take n (drop b xs) ++ z ∷ []) (sym (get_or-drop b n xs blank))
              ∙ sym (take-next n (drop b xs) blank (omega (arith, length-drop b xs)))) in
      ap (λ i. slide_back n i (b + suc n + 1 - 1) (set xs (b + suc n + 1 - 1) (get_or xs i blank)))
        e_from
      ∙ (ap (λ i. slide_back n (b + n) i (set xs i y)) e_to
          ∙ (slide_back-take b n moved (omega (arith, length-set xs at y))
              ∙ (ap (λ t. t ++ (take n (drop b moved) ++ drop at moved))
                    (take-set_beyond (b + 1) at xs y (omega arith))
                  ∙ (ap (λ t. take (b + 1) xs ++ (t ++ drop at moved)) middle
                      ∙ ap (λ t. take (b + 1) xs ++ t)
                          (ap (λ t. take n (drop b xs) ++ t) (drop-set_head at xs y (omega arith))
                            ∙ (next ∙ ap (λ i. take (suc n) (drop b xs) ++ drop i xs) e_last))))))

  -- A write at place `b` of the moved elements.
  set-slide_back :
      (b n : ℕ) (xs : List T) (x : T)
      → b + n + 1 ≤ length xs
      → take (b + n + 1) (set (slide_back n (b + n) (b + n + 1) xs) b x)
        ≡ take b xs ++ x ∷ take n (drop b xs)
  set-slide_back b n xs x h =
      let P = take b xs in
      let M = take n (drop b xs) in
      let R = drop (b + n + 1) xs in
      let len_P : length P ≡ b = omega (arith, length-take b xs) in
      let len_F : length (take (b + 1) xs) ≡ b + 1 = omega (arith, length-take (b + 1) xs) in
      let len_M : length M ≡ n = omega (arith, length-take n (drop b xs), length-drop b xs) in
      let one : b + 1 ≡ suc b = omega arith in
      let e_b : b ≡ length P + 0 = omega (arith, len_P) in
      let last : set (take (b + 1) xs) b x ≡ P ++ x ∷ [] =
        ap (λ i. set (take i xs) b x) one
        ∙ (ap (λ t. set t b x) (take-next b xs blank (omega arith))
            ∙ (ap (λ i. set (P ++ get_or xs b blank ∷ []) i x) e_b
                ∙ set-append_right P (get_or xs b blank ∷ []) 0 x)) in
      let len_all : length ((P ++ x ∷ []) ++ M) ≡ b + n + 1 =
        omega (arith, length-append (P ++ x ∷ []) M, length-append P (x ∷ []), len_P, len_M) in
      ap (λ t. take (b + n + 1) (set t b x)) (slide_back-take b n xs h)
      ∙ (ap (take (b + n + 1)) (
            set-append_left (take (b + 1) xs) (M ++ R) b x (omega (arith, len_F))
            ∙ (ap (λ t. t ++ (M ++ R)) last ∙ sym (append_assoc (P ++ x ∷ []) M R)))
          ∙ (take-append (b + n + 1) ((P ++ x ∷ []) ++ M) R (omega (arith, len_all))
              ∙ (take-all ((P ++ x ∷ []) ++ M) (b + n + 1) (omega (arith, len_all))
                  ∙ append_assoc P (x ∷ []) M)))

  move_backward_keeps :
      (n : ℕ) (p q : Ptr) (v : SmallVector T)
      → ((move_backward blank n p q v).len ≡ v.len)
        × (min_capacity (move_backward blank n p q v) ≡ min_capacity v)
  unfolding move_backward
  move_backward_keeps zero p q v = (refl, refl)
  move_backward_keeps (suc n) p q v =
      let x = read blank v (decrement v p) in
      let w = write v (decrement v q) x in
      let (a, b) = move_backward_keeps n (decrement v p) (decrement v q) w in
      (a ∙ len-write blank v (decrement v q) x, b ∙ min_capacity-write v (decrement v q) x)

  -- The vector with room, after the move and the write.
  insert_grown :
      (v w : SmallVector T) (i : ℕ) (x : T)
      → IsValid v
      → IsGrown blank v w (v.len + 1)
      → i < min_capacity v
      → i ≤ v.len
      → contents (
          write
            (move_backward blank
              (position w (retreat w (end w) 1) - i)
              (retreat w (end w) 1)
              (end w)
              w)
            (in_arr i)
            x)
        ≡ take i (contents v) ++ x ∷ drop i (contents v)
  insert_grown v w i x valid g inline inside =
      let p = retreat w (end w) 1 in
      let (h_end, at_end) = end-position w in
      let (h_p, at_p) = retreat-position w (end w) 1 h_end (omega (arith, at_end, g.len_is)) in
      let n = v.len - i in
      let n' = position w p - i in
      let u = move_backward blank n' p (end w) w in
      let (u_len, u_min) = move_backward_keeps n' p (end w) w in
      let W = space w in
      let e_n : n' ≡ n = omega (arith, at_p, at_end, g.len_is) in
      let e_p : position w p ≡ i + n = omega (arith, at_p, at_end, g.len_is) in
      let e_q : position w (end w) ≡ i + n + 1 = omega (arith, at_end, g.len_is) in
      let e_len : u.len ≡ i + n + 1 = omega (arith, u_len, g.len_is) in
      let both : W ≡ space v ++ g.new =
        ap (λ a. a ++ w.heap) g.same_arr
        ∙ (ap (λ b. v.arr ++ b) g.more ∙ sym (append_assoc v.arr v.heap g.new)) in
      let high : i + n + 1 ≤ length W =
        omega (arith, length-append w.arr w.heap, ap length g.same_arr, g.all_heap, g.room) in
      let low : v.len ≤ length (space v) =
        omega (arith, length-append v.arr v.heap, valid.all_heap, valid.inside) in
      let moved : space u ≡ slide_back n (i + n) (i + n + 1) W =
        space-move_backward n' p (end w) w h_p h_end (omega (arith, e_p)) (omega (arith, e_q, e_p))
        ∙ (ap (λ k. slide_back k (position w p) (position w (end w)) W) e_n
            ∙ (ap (λ k. slide_back n k (position w (end w)) W) e_p
                ∙ ap (λ k. slide_back n (i + n) k W) e_q)) in
      let old : take v.len W ≡ contents v =
        ap (take v.len) both ∙ take-append v.len (space v) g.new low in
      ap (λ k. take k (space (write u (in_arr i) x))) e_len
      ∙ (ap (take (i + n + 1)) (
            space-write u (in_arr i) x (omega (arith, u_min, ap length g.same_arr))
            ∙ ap (λ s. set s i x) moved)
          ∙ (set-slide_back i n W x high
              ∙ (ap (λ t. t ++ x ∷ take n (drop i W))
                    (sym (take-take i v.len W inside) ∙ ap (take i) old)
                  ∙ ap (λ t. take i (contents v) ++ x ∷ t)
                      (sym (drop-take i v.len W) ∙ ap (drop i) old))))

  -- `insert` at a place of the inline space of a valid vector puts the element there and keeps the
  -- others in their order.
  pub insert-contents :
      (v : SmallVector T) (i : ℕ) (x : T)
      → IsValid v
      → i < min_capacity v
      → i ≤ v.len
      → contents (insert blank v (in_arr i) x) ≡ take i (contents v) ++ x ∷ drop i (contents v)
  unfolding insert make_space
  insert-contents v i x valid inline inside =
      let n = (v.len + 1) % 2 ^ 64 in
      let e_n : n ≡ v.len + 1 = omega (arith, valid.inside, valid.small) in
      let w = reserve blank n (record v { len = n }) in
      let g : IsGrown blank v w (v.len + 1) =
        subst (IsGrown blank v w) e_n (reserve-IsGrown blank v n valid (omega arith)) in
      insert_grown v w i x valid g inline inside
