-- ===== src/ArraySet/Ranked.antt =====
-- The index of a set in `ArraySet` of src/arrayset.hpp is its rank among all sets.
use native.Mathlib.Nat.{
  pow-zero, pow-suc, mul-le-mul, mul-le-mul_right, pow-le-pow_left, pow-le-pow_right,
}
use corecommon.Common.{
  ℕ_discrete, dec_lt, ℕ, zero, suc, ◌+◌, ◌-◌, ◌*◌, ◌%◌, ◌^◌, ◌≤◌, ◌<◌, ◌≡◌, refl, sym, ap, ◌∙◌,
  true, List, [], ◌∷◌, length, take, arith, ltb, length-replicate, some, Gives, In, ◌↔◌, replicate,
  ◌>>=◌, Bool-cases, inl, inr,
}
use mathlib.Core.Path.{subst}
use corecommon.Util.Binomial.{binomial, choose, rising, binomial-choose, choose_beyond}
use corecommon.ArraySet.Sorted.{
  AreBelow, IsDistinct, IsDescending, length-sort_down, In-sort_down, sort_down-IsDescending,
}
use corecommon.ArraySet.Sets.{ArraySet, array_set, sort_down, add_up, out_index}

rank : List ℕ → ℕ
rank [] = 0
rank (x ∷ xs) = choose x (suc (length xs)) + rank xs

choose-suc_le : (n k : ℕ) → choose n k ≤ choose (suc n) k
choose-suc_le n zero = omega arith
choose-suc_le n (suc k) = omega arith

choose_mono : (n m k : ℕ) → n ≤ m → choose n k ≤ choose m k
choose_mono n zero k h = let e : n ≡ 0 = omega arith in rw e (omega arith)
choose_mono n (suc m) k h = elim (ℕ_discrete n (suc m)) [
  | yes same ↦ rw same (omega arith)
  | no less ↦ omega (arith, choose_mono n m k (omega arith), choose-suc_le m k)
]

choose-le-pow : (n k : ℕ) → choose n k ≤ n ^ k
choose-le-pow n zero = omega (arith, pow-zero n)
choose-le-pow zero (suc k) = omega arith
choose-le-pow (suc n) (suc k) =
    let a = choose-le-pow n k in
    let b = choose-le-pow n (suc k) in
    let c : n ^ suc k ≡ n ^ k * n = pow-suc n k in
    let d : suc n ^ suc k ≡ suc n ^ k * suc n = pow-suc (suc n) k in
    let e : n ^ k * suc n ≤ suc n ^ k * suc n =
      mul-le-mul_right (suc n) (pow-le-pow_left {n = n} {m = suc n} (omega arith) k) in
    let f : n ^ k * suc n ≡ n ^ k * n + n ^ k = grind arith in omega arith

rising-le-pow : (r i m : ℕ) → i + r ≤ m + 1 → rising r i ≤ m ^ r
rising-le-pow zero i m h = omega (arith, pow-zero m)
rising-le-pow (suc r) i m h =
    let a : rising r (i + 1) ≤ m ^ r = rising-le-pow r (i + 1) m (omega arith) in
    let b : i * rising r (i + 1) ≤ m * m ^ r =
      mul-le-mul {n₁ = i} {m₁ = rising r (i + 1)} (omega arith) a in
    let c : m ^ suc r ≡ m ^ r * m = pow-suc m r in
    let d : m * m ^ r ≡ m ^ r * m = grind arith in omega arith

none_chosen : (n k : ℕ) → ltb n k ≡ true → binomial n k ≡ some (choose n k)
unfolding binomial
none_chosen n k beyond = rw beyond (ap some (sym (choose_beyond n k (ground arith))))

-- Where len ^ elements fits into a `size_t`, the binomial coefficients in use are computed right.
binomial-within :
    (len elements n k : ℕ)
    → 0 < len
    → len + 1 < 2 ^ 64
    → len ^ elements < 2 ^ 64
    → n ≤ len
    → k ≤ elements
    → binomial n k ≡ some (choose n k)
binomial-within len elements n k pos top fits hn hk = elim (Bool-cases (ltb n k)) [
  | inl beyond ↦ none_chosen n k beyond
  | inr within ↦
      let a : rising k (n - k + 1) ≤ n ^ k = rising-le-pow k (n - k + 1) n (ground arith) in
      let b : n ^ k ≤ len ^ k = pow-le-pow_left {n = n} {m = len} hn k in
      let c : len ^ k ≤ len ^ elements = pow-le-pow_right {n = len} pos {i = k} {j = elements} hk in
      binomial-choose n k (omega arith) (omega arith)
]

rank-lt-choose : (m : ℕ) (xs : List ℕ) → IsDescending m xs → rank xs < choose m (length xs)
unfolding rank IsDescending
rank-lt-choose m [] h = omega arith
rank-lt-choose m (x ∷ xs) h =
    let below = rank-lt-choose x xs h.1 in
    let up : choose (suc x) (suc (length xs)) ≤ choose m (suc (length xs)) =
      choose_mono (suc x) m (suc (length xs)) (omega (arith, h.0)) in
    omega arith

-- The set with the larger greatest element has the larger rank.
rank_lt :
    (x y : ℕ) (xs ys : List ℕ)
    → x < y
    → IsDescending x xs
    → length xs ≡ length ys
    → rank (x ∷ xs) < rank (y ∷ ys)
unfolding rank
rank_lt x y xs ys h d l =
    let a = rank-lt-choose x xs d in
    let b : choose (suc x) (suc (length xs)) ≤ choose y (suc (length xs)) =
      choose_mono (suc x) y (suc (length xs)) h in
    omega (arith, a, b, ap (λ n. choose y (suc n)) l)

-- Sets of one size are told apart by their ranks.
rank_injective :
    (m n : ℕ) (xs ys : List ℕ)
    → IsDescending m xs
    → IsDescending n ys
    → length xs ≡ length ys
    → rank xs ≡ rank ys
    → xs ≡ ys
unfolding rank IsDescending
rank_injective m n [] [] h k l e = refl
rank_injective m n [] (y ∷ ys) h k l e = absurd (omega arith)
rank_injective m n (x ∷ xs) [] h k l e = absurd (omega arith)
rank_injective m n (x ∷ xs) (y ∷ ys) h k l e =
    let same_length : length xs ≡ length ys = omega (arith, l) in
    elim (ℕ_discrete x y) [
      | yes same ↦
          let rest : rank xs ≡ rank ys = omega (
            arith,
            e,
            ap (λ n. choose x (suc n)) same_length,
            ap (λ z. choose z (suc (length ys))) same,
          ) in
          let tails = rank_injective x y xs ys h.1 k.1 same_length rest in cc
      | no other ↦ elim (dec_lt x y) [
        | yes less ↦
            let r : rank (x ∷ xs) < rank (y ∷ ys) = rank_lt x y xs ys less h.1 same_length in
            absurd (omega arith)
        | no more ↦
            let r : rank (y ∷ ys) < rank (x ∷ xs) =
              rank_lt y x ys xs (omega arith) k.1 (sym same_length) in
            absurd (omega arith)
      ]
    ]

IsDescending-le : (m : ℕ) {n : ℕ} (xs : List ℕ) → n ≤ m → IsDescending n xs → IsDescending m xs
unfolding IsDescending
IsDescending-le m [] h d = tt
IsDescending-le m (x ∷ xs) h d = (omega (arith, d.0), d.1)

-- The sum that `operator[]` computes, as long as it fits.
add_up-rank :
    (len elements : ℕ) (xs : List ℕ) (out : ℕ)
    → 0 < len
    → len + 1 < 2 ^ 64
    → len ^ elements < 2 ^ 64
    → IsDescending len xs
    → length xs ≤ elements
    → out + rank xs < 2 ^ 64
    → add_up xs out ≡ some (out + rank xs)
unfolding rank IsDescending add_up
add_up-rank len elements [] out pos top fits h l small = ap some (omega arith)
add_up-rank len elements (x ∷ xs) out pos top fits h l small =
    let count : binomial x (suc (length xs)) ≡ some (choose x (suc (length xs))) =
      binomial-within len elements x (suc (length xs)) pos top fits (omega (arith, h.0)) l in
    let sum : (out + choose x (suc (length xs))) % 2 ^ 64 ≡ out + choose x (suc (length xs)) =
      omega arith in
    rw (count, sum)
      (add_up-rank len elements xs (out + choose x (suc (length xs))) pos top fits
          (IsDescending-le len xs (omega (arith, h.0)) h.1) (omega arith) (omega arith)
        ∙ ap some (omega arith))

-- Indices of the elements of a set: the first `elements` numbers of `idx` are that many, they are
-- below len, and none stands there twice.
pub record IsChoice (len elements : ℕ) (idx : List ℕ) : Type 0 where
  pub below : AreBelow len (take elements idx)
  pub distinct : IsDistinct (take elements idx)
  pub size : length (take elements idx) ≡ elements

module _ {T : Type 0} (len elements : ℕ) (x : T) (pos : 0 < len) (top : len + 1 < 2 ^ 64)
    (fits : len ^ elements < 2 ^ 64) where
  new_set :
      array_set elements len x
      ≡ some (record { vec = replicate (choose len elements) x; elements = elements })
  unfolding array_set
  new_set =
      let size =
        binomial-within len elements len elements pos top fits (omega arith) (omega arith) in
      rw size refl

  out_index-rank :
      (vec : List T) (idx : List ℕ)
      → IsChoice len elements idx
      → (out_index (record { vec = vec; elements = elements }) idx
          ≡ some (rank (sort_down (take elements idx))))
        × (rank (sort_down (take elements idx)) < choose len elements)
  unfolding out_index
  out_index-rank vec idx s =
      let sorted : List ℕ = sort_down (take elements idx) in
      let descending = sort_down-IsDescending len (take elements idx) s.below s.distinct in
      let size : length sorted ≡ elements = length-sort_down (take elements idx) ∙ s.size in
      let below : rank sorted < choose len elements =
        rw size at (rank-lt-choose len sorted descending) in
      let small : choose len elements ≤ len ^ elements = choose-le-pow len elements in
      (
        add_up-rank len elements sorted 0 pos top fits descending (omega (arith, size))
              (omega arith)
            ∙ ap some (omega arith),
        below,
      )

  -- A new array can be made, and its `operator[]` ends and stays inside its vector: the index of a
  -- set of `elements` distinct numbers below `len`, in any order, is less than the number of
  -- elements. The hypothesis: len is neither 0 nor the greatest `size_t`, and len ^ elements fits
  -- into a `size_t`.
  pub out_index-lt-length :
      (idx : List ℕ)
      → IsChoice len elements idx
      → (s : ArraySet T) × (array_set elements len x ≡ some s)
        × (i : ℕ) × (out_index s idx ≡ some i)
        × (i < length s.vec)
  out_index-lt-length idx choice =
      let (at, below) = out_index-rank (replicate (choose len elements) x) idx choice in
      (_, new_set, _, at, omega (arith, below, length-replicate (choose len elements) x))

  -- `operator[]` of a new array gives two sets the same element only if they are one set: where
  -- their indices are the same, so are the sorted numbers, and each number is in both or in none.
  -- The hypotheses: both are `elements` distinct numbers below len, len is neither 0 nor the
  -- greatest `size_t`, and len ^ elements fits into a `size_t`.
  pub out_index_injective :
      (a b : List ℕ)
      → IsChoice len elements a
      → IsChoice len elements b
      → (array_set elements len x >>= λ s. out_index s a)
        ≡ (array_set elements len x >>= λ s. out_index s b)
      → (sort_down (take elements a) ≡ sort_down (take elements b))
        × ((z : ℕ) → In z (take elements a) ↔ In z (take elements b))
  out_index_injective a b s t e =
      let vec = replicate (choose len elements) x in
      let xs = take elements a in
      let ys = take elements b in
      let same = rw (new_set, (out_index-rank vec a s).0, (out_index-rank vec b t).0) at e in
      let sorted : sort_down xs ≡ sort_down ys =
        rank_injective len len _ _ (sort_down-IsDescending len xs s.below s.distinct)
          (sort_down-IsDescending len ys t.below t.distinct)
          (length-sort_down xs ∙ s.size ∙ sym (length-sort_down ys ∙ t.size))
          (subst (Gives (λ r. rank (sort_down xs) ≡ r)) same refl) in
      (
        sorted,
        λ z. (
          (λ h. (In-sort_down z ys).0 (subst (In z) sorted ((In-sort_down z xs).1 h))),
          (λ h. (In-sort_down z xs).0 (subst (In z) (sym sorted) ((In-sort_down z ys).1 h))),
        ),
      )
