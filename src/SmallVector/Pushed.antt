-- ===== src/SmallVector/Pushed.antt =====
-- `push_back` of src/smallvector.hpp.
use corecommon.Common.{
  ℕ, suc, ◌+◌, ◌-◌, ◌%◌, ◌^◌, ◌≤◌, ◌<◌, List, [], ◌∷◌, ◌++◌, length, set, take, replicate, leb, ◌≡◌,
  refl, sym, ap, ◌∙◌, arith, append_assoc, append-nil, length-append, length-replicate, take-all,
  take-append, take-set, Bool-cases, if-cases, inl, inr,
}
use mathlib.Core.Path.{subst}
use corecommon.SmallVector.Buffer.{SmallVector, min_capacity, reserve}
use corecommon.SmallVector.Pointer.{Ptr, in_arr, in_data, position, end, retreat, write}
use corecommon.SmallVector.Editing.{move_backward, make_space, insert, push_back}
use corecommon.SmallVector.Positions.{IsPlaced, end-position, retreat-position}
use corecommon.SmallVector.Contents.{space, contents, IsValid, space-write}

module _ {ℓ} {T : Type ℓ} (blank : T) where
  -- `w` is `v` with room for `n` elements and the length `n`.
  pub record IsGrown (v w : SmallVector T) (n : ℕ) : Type ℓ where
    pub new : List T
    pub same_arr : w.arr ≡ v.arr
    pub more : w.heap ≡ v.heap ++ new
    pub all_heap : length w.heap ≡ w.cap
    pub room : n ≤ min_capacity v + w.cap
    pub small : min_capacity v + w.cap < 2 ^ 64
    pub len_is : w.len ≡ n

  pub reserve-IsGrown :
      (v : SmallVector T) (n : ℕ)
      → IsValid v
      → n < 2 ^ 64
      → IsGrown v (reserve blank n (record v { len = n })) n
  unfolding reserve
  reserve-IsGrown v n valid small = elim (Bool-cases (leb n ((v.cap + min_capacity v) % 2 ^ 64))) [
    | inl e ↦ rw (e) (record {
      new = [];
      same_arr = refl;
      more = sym (append-nil v.heap);
      all_heap = valid.all_heap;
      room = ground (arith, e, valid.small);
      small = omega (arith, valid.small);
      len_is = refl;
    })
    | inr e ↦
        (let more : v.cap + min_capacity v < n = ground (arith, e, valid.small) in
          let kept : take v.cap v.heap ≡ v.heap =
            take-all v.heap v.cap (omega (arith, valid.all_heap)) in
          rw (e) (record {
            new = replicate (n - min_capacity v - v.cap) blank;
            same_arr = refl;
            more = ap (λ h. h ++ replicate (n - min_capacity v - v.cap) blank) kept;
            all_heap =
                ap (λ h. length (h ++ replicate (n - min_capacity v - v.cap) blank)) kept
                ∙ omega (
                  arith,
                  length-append v.heap (replicate (n - min_capacity v - v.cap) blank),
                  length-replicate (n - min_capacity v - v.cap) blank,
                  valid.all_heap,
                  more,
                );
            room = omega (arith, more);
            small = omega (arith, more);
            len_is = refl;
          }))
  ]

  pub len-write : (w : SmallVector T) (p : Ptr) (x : T) → (write w p x).len ≡ w.len
  len-write w (in_arr i) x = refl
  len-write w (in_data i) x = refl

  -- The place behind the old elements, written.
  written :
      (v w : SmallVector T) (p : Ptr) (x : T)
      → IsValid v
      → IsGrown v w (v.len + 1)
      → IsPlaced w p
      → position w p ≡ v.len
      → contents (write w p x) ≡ contents v ++ x ∷ []
  written v w p x valid g h e =
      let both : space w ≡ space v ++ g.new =
        ap (λ a. a ++ w.heap) g.same_arr
        ∙ (ap (λ b. v.arr ++ b) g.more ∙ sym (append_assoc v.arr v.heap g.new)) in
      let high : v.len < length (space w) =
        omega (arith, length-append w.arr w.heap, ap length g.same_arr, g.all_heap, g.room) in
      let low : v.len ≤ length (space v) =
        omega (arith, length-append v.arr v.heap, valid.all_heap, valid.inside) in
      let e_len : (write w p x).len ≡ suc v.len = omega (arith, len-write w p x, g.len_is) in
      ap (λ i. take i (space (write w p x))) e_len
      ∙ (ap (take (suc v.len)) (space-write w p x h ∙ ap (λ i. set (space w) i x) e)
          ∙ (take-set v.len (space w) x high
              ∙ ap (λ t. t ++ x ∷ [])
                  (ap (take v.len) both ∙ take-append v.len (space v) g.new low)))

  pub placed :
      (v w : SmallVector T) (p : Ptr) → IsGrown v w (v.len + 1) → IsPlaced v p → IsPlaced w p
  placed v w (in_arr i) g h = omega (arith, ap length g.same_arr)
  placed v w (in_data i) g h = h

  pub kept : (v w : SmallVector T) (p : Ptr) → IsGrown v w (v.len + 1) → position w p ≡ position v p
  kept v w (in_arr i) g = refl
  kept v w (in_data i) g = omega (arith, ap length g.same_arr)

  make_space-end :
      (v : SmallVector T)
      → IsValid v
      → let w = reserve blank ((v.len + 1) % 2 ^ 64) (record v { len = (v.len + 1) % 2 ^ 64 }) in
        IsGrown v w (v.len + 1) → make_space blank v (end v) 1 ≡ w
  unfolding make_space move_backward end
  make_space-end v valid g =
      let w = reserve blank ((v.len + 1) % 2 ^ 64) (record v { len = (v.len + 1) % 2 ^ 64 }) in
      let same_min : min_capacity w ≡ min_capacity v = ap length g.same_arr in
      if-cases (λ p. make_space blank v p 1 ≡ w) (leb (min_capacity v) v.len) _ _
        (λ e.
          if-cases (λ z. z ≡ w) (leb (w.len - 1 - min_capacity w) (v.len - min_capacity v)) _ _
            (λ _. refl) (λ f. absurd (ground (arith, e, f, g.len_is, same_min))))
        λ e.
          let (h, at) = end-position w in
          let (_, last) = retreat-position w (end w) 1 h (omega (arith, at, g.len_is)) in
          let none_left : position w (retreat w (end w) 1) - v.len ≡ 0 =
            omega (arith, at, last, g.len_is) in
          ap (λ n. move_backward blank n (retreat w (end w) 1) (end w) w) none_left

  -- `push_back` on every valid vector with fewer than 2^64 - 1 elements adds the element behind the
  -- others, in the inline space or in a larger buffer.
  pub push_back-contents :
      (v : SmallVector T) (x : T)
      → IsValid v
      → contents (push_back blank v x) ≡ contents v ++ x ∷ []
  unfolding push_back insert
  push_back-contents v x valid =
      let n = (v.len + 1) % 2 ^ 64 in
      let e_n : n ≡ v.len + 1 = omega (arith, valid.inside, valid.small) in
      let w = reserve blank n (record v { len = n }) in
      let g : IsGrown v w (v.len + 1) =
        subst (IsGrown v w) e_n (reserve-IsGrown v n valid (omega arith)) in
      let (h, e) = end-position v in
      ap (λ u. contents (write u (end v) x)) (make_space-end v valid g)
      ∙ written v w (end v) x valid g (placed v w (end v) g h) (kept v w (end v) g ∙ e)
