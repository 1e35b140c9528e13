-- ===== src/SmallVector/Sized.antt =====
-- `SmallVector(n, x)` and `resize` of src/smallvector.hpp.
use corecommon.Common.{
  ℕ, zero, suc, ◌+◌, ◌-◌, ◌^◌, ◌≤◌, ◌<◌, ◌∷◌, ◌++◌, length, take, replicate, leb, ◌≡◌, refl, ap,
  ◌∙◌, arith, append-nil, length-append, length-replicate, length-take, take-append, take-all,
  drop-all, if-cases,
}
use corecommon.SmallVector.Buffer.{SmallVector, filled}
use corecommon.SmallVector.Pointer.{begin, end, advance, position}
use corecommon.SmallVector.Editing.{resize}
use corecommon.SmallVector.Positions.{end-position, advance-position}
use corecommon.SmallVector.Contents.{space, contents, IsValid}
use corecommon.SmallVector.Erased.{erase-contents}

replicate_add {ℓ} :
    {T : Type ℓ} (m n : ℕ) (x : T) → replicate m x ++ replicate n x ≡ replicate (m + n) x
replicate_add zero n x = ap (λ k. replicate k x) (omega arith)
replicate_add (suc m) n x =
    let e : suc (m + n) ≡ suc m + n = omega arith in
    ap (λ t. x ∷ t) (replicate_add m n x) ∙ ap (λ k. replicate k x) e

module _ {ℓ} {T : Type ℓ} (blank : T) where
  -- `SmallVector(n, x)` is a valid vector of `n` copies of the element.
  pub filled-replicate :
      (min n : ℕ) (x : T)
      → 0 < min
      → min + n + 1 < 2 ^ 64
      → IsValid (filled blank min n x) × (contents (filled blank min n x) ≡ replicate n x)
  unfolding filled
  filled-replicate min n x some_arr small =
      if-cases (λ v. IsValid v × (contents v ≡ replicate n x)) (leb n min) _ _
        (λ e.
          let le : n ≤ min = ground (arith, e) in
          let len_arr : length (replicate n x ++ replicate (min - n) blank) ≡ min = omega (
            arith,
            length-append (replicate n x) (replicate (min - n) blank),
            length-replicate n x,
            length-replicate (min - n) blank,
            le,
          ) in
          (
            record {
              some_arr = omega (arith, len_arr);
              all_heap = refl;
              inside = omega (arith, len_arr, le);
              small = omega (arith, len_arr);
            },
            ap (take n) (append-nil (replicate n x ++ replicate (min - n) blank))
                ∙ (take-append n (replicate n x) (replicate (min - n) blank)
                      (omega (arith, length-replicate n x))
                    ∙ take-all (replicate n x) n (omega (arith, length-replicate n x))),
          ))
        λ e.
          let lt : min < n = ground (arith, e) in
          let whole : replicate min x ++ replicate (n - min) x ≡ replicate n x =
            replicate_add min (n - min) x ∙ ap (λ k. replicate k x) (omega (arith, lt)) in
          (
            record {
              some_arr = omega (arith, length-replicate min x);
              all_heap = length-replicate (n - min) x;
              inside = omega (arith, length-replicate min x, lt);
              small = omega (arith, length-replicate min x, lt);
            },
            ap (take n) whole ∙ take-all (replicate n x) n (omega (arith, length-replicate n x)),
          )

  -- `resize` of a valid vector to at most its size leaves its first elements.
  resize-contents :
      (v : SmallVector T) (n : ℕ)
      → IsValid v
      → n ≤ v.len
      → contents (resize blank n v) ≡ take n (contents v)
  unfolding resize
  resize-contents v n valid le =
      if-cases (λ w. contents w ≡ take n (contents v)) (leb n v.len) _ _
        (λ _.
          let (h_end, at_end) = end-position v in
          let (h, at) = advance-position v (begin v) n valid.some_arr in
          erase-contents blank v (advance v (begin v) n) (end v) valid h h_end
            (omega (arith, at, at_end, le)) (omega (arith, at_end))
          ∙ (ap (λ t. take (position v (advance v (begin v) n)) (contents v) ++ t)
                (drop-all (contents v) (position v (end v))
                  (omega (arith, length-take v.len (space v), at_end)))
              ∙ (append-nil (take (position v (advance v (begin v) n)) (contents v))
                  ∙ ap (λ i. take i (contents v)) (omega (arith, at)))))
        (λ e. absurd (ground (arith, e, le)))
