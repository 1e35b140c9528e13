-- ===== src/Util/Binomial.antt =====
-- `binomial` of src/util.cpp, against Pascal's rule. A `size_t` is a number below 2 ^ 64.
use native.Mathlib.Nat.{add_assoc, div-eq_of_eq-mul_left, mod-eq_of_lt, mul_assoc, mul-le-mul_left}
use corecommon.Common.{
  ℕ, zero, suc, ◌+◌, ◌-◌, ◌*◌, ◌/◌, ◌%◌, ◌^◌, ◌<◌, ◌≡◌, refl, ap, ◌∙◌, sym, arith, ltb, leb, Option,
  none, some, ◌>>=◌, true, false, Bool-cases, inl, inr, if◌then◌else◌,
}

abbrev pub size_mod : ℕ
size_mod = 2 ^ 64

-- `for (size_t i=n-k+1; i<=n; i++) res *= i;`, as a loop with fuel: `none` means that it ran out.
unfoldable pub multiply : ℕ → ℕ → ℕ → ℕ → Option ℕ
multiply zero i n res = none
multiply (suc fuel) i n res =
    let rest = multiply fuel ((i + 1) % size_mod) n (res * i % size_mod) in
    if leb i n then rest else some res

-- `for (size_t i=2; i<=k; i++) res /= i;`, with the rounds that are left. As k is at most n, its
-- counter can wrap only where the first loop does not end.
unfoldable pub divide : ℕ → ℕ → ℕ → ℕ
divide zero i res = res
divide (suc rounds) i res = divide rounds (i + 1) (res / i)

-- k + 1 rounds are enough for the first loop, unless it does not end with any number of them.
unfoldable pub binomial : ℕ → ℕ → Option ℕ
unfolding multiply divide
binomial n k =
    if ltb n k
    then some 0
    else (multiply (k + 1) ((n - k + 1) % size_mod) n 1 >>= λ res. some (divide (k - 1) 2 res))

-- The number of ways to choose `k` of `n` things, by Pascal's rule.
abbrev pub choose : ℕ → ℕ → ℕ
choose n zero = 1
choose zero (suc k) = 0
choose (suc n) (suc k) = choose n k + choose n (suc k)

-- i * (i + 1) * ... of `rounds` factors.
abbrev pub rising : ℕ → ℕ → ℕ
rising zero i = 1
rising (suc rounds) i = i * rising rounds (i + 1)

rising_pos : (r i : ℕ) → 0 < i → 0 < rising r i
rising_pos zero i h = omega arith
rising_pos (suc r) i h = grind (arith, rising_pos r (i + 1))

-- While the true product fits into a `size_t`, the first loop computes it.
multiply-rising :
    (r i n res : ℕ)
    → i + r ≡ n + 1
    → n + 1 < size_mod
    → 0 < i
    → 0 < res
    → res * rising r i < size_mod
    → multiply (suc r) i n res ≡ some (res * rising r i)
unfolding multiply
multiply-rising zero i n res at top hi hr h =
    let past : leb i n ≡ false = ground arith in rw past (ap some (omega arith))
multiply-rising (suc r) i n res at top hi hr h =
    let p = rising_pos r (i + 1) (omega arith) in
    let e = mul_assoc res i (rising r (i + 1)) in
    let small : res * i < size_mod =
      omega (arith, mul-le-mul_left {m = 1} {n = rising r (i + 1)} (res * i) p) in
    let within : leb i n ≡ true = ground arith in
    let next : (i + 1) % size_mod ≡ i + 1 = omega arith in
    rw (within, next, mod-eq_of_lt small)
      (multiply-rising r (i + 1) n (res * i) (omega arith) top (omega arith) (grind arith)
          (omega arith)
        ∙ ap some e)

-- The greatest `size_t` is an n that no counter passes.
multiply-endless : (fuel i res : ℕ) → i < size_mod → multiply fuel i (size_mod - 1) res ≡ none
unfolding multiply
multiply-endless zero i res h = refl
multiply-endless (suc fuel) i res h =
    let within : leb i (size_mod - 1) ≡ true = ground arith in
    rw within (multiply-endless fuel ((i + 1) % size_mod) (res * i % size_mod) (omega arith))

-- The second loop divides out the factors that it meets.
divide-rising : (r i q : ℕ) → 0 < i → divide r i (q * rising r i) ≡ q
unfolding divide
divide-rising zero i q hi = omega arith
divide-rising (suc r) i q hi =
    let e : q * (i * rising r (i + 1)) / i ≡ q * rising r (i + 1) =
      div-eq_of_eq-mul_left hi (grind arith) in
    rw e (divide-rising r (i + 1) q (omega arith))

-- The last factor of a rising product may be split off instead of the first.
rising_last : (r i : ℕ) → rising (suc r) i ≡ rising r i * (i + r)
rising_last zero i = omega arith
rising_last (suc r) i =
    let e = rising_last r (i + 1) in omega (arith, ap (λ (t : ℕ). i * t) e, add_assoc i 1 r)

pub choose_beyond : (n k : ℕ) → n < k → choose n k ≡ 0
choose_beyond n zero h = elim h [ ]
choose_beyond zero (suc k) h = refl
choose_beyond (suc n) (suc k) h =
    omega (arith, choose_beyond n k (omega arith), choose_beyond n (suc k) (omega arith))

regroup : (c d a b t u : ℕ) → c * a ≡ t → d * (a * b) ≡ u → (c + d) * (a * b) ≡ t * b + u
regroup c d a b t u h k = omega (arith, ap (λ (x : ℕ). x * b) h)

-- (m + k choose k) * k! = (m + 1) * ... * (m + k)
choose-rising : (k m n : ℕ) → n ≡ m + k → choose n k * rising k 1 ≡ rising k (m + 1)
choose-rising zero m n e = omega arith
choose-rising (suc k) m zero e = absurd (omega arith)
choose-rising (suc k) zero (suc n) e =
    let here = choose-rising k 0 n (omega arith) in
    let none_left = choose_beyond n (suc k) (omega arith) in
    rw (rising_last k 1) (
      regroup (choose n k) (choose n (suc k)) (rising k 1) (1 + k) (rising k 1) 0 here
        (rw none_left (omega arith))
      ∙ omega arith)
choose-rising (suc k) (suc m) (suc n) e =
    let here = choose-rising k (suc m) n (omega arith) in
    let below = choose-rising (suc k) m n (omega arith) in
    let e' : suc m + 1 ≡ m + 1 + 1 = omega arith in
    rw (rising_last k 1, rising_last k (suc m + 1))
      (regroup (choose n k) (choose n (suc k)) (rising k 1) (1 + k) (rising k (suc m + 1))
          (rising (suc k) (m + 1)) here (rw (← rising_last k 1) below)
        ∙ rw e' (omega arith))

divided : (k q t : ℕ) → q * rising k 1 ≡ t → divide (k - 1) 2 (1 * t) ≡ q
divided zero q t e = unfold divide in omega arith
divided (suc k) q t e =
    let product : 1 * t ≡ q * rising k 2 = omega arith in
    let rounds : suc k - 1 ≡ k = omega arith in
    rw (product, rounds) (divide-rising k 2 q (omega arith))

-- As long as n * (n - 1) * ... * (n - k + 1) fits into a `size_t` and n is not the greatest one,
-- `binomial` ends with the binomial coefficient that Pascal's rule gives.
pub binomial-choose :
    (n k : ℕ)
    → n + 1 < size_mod
    → rising k (n - k + 1) < size_mod
    → binomial n k ≡ some (choose n k)
unfolding binomial
binomial-choose n k top h = elim (Bool-cases (ltb n k)) [
  | inl beyond ↦ rw beyond (ap some (sym (choose_beyond n k (ground arith))))
  | inr within ↦
      let start : (n - k + 1) % size_mod ≡ n - k + 1 = omega arith in
      let rounds : k + 1 ≡ suc k = omega arith in
      let product =
        multiply-rising k (n - k + 1) n 1 (ground arith) top (omega arith) (omega arith)
          (omega arith) in
      let count = choose-rising k (n - k) n (ground arith) in
      rw (within, start, rounds, product)
        (ap some (divided k (choose n k) (rising k (n - k + 1)) count))
]
