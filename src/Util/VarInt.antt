-- ===== src/Util/VarInt.antt =====
-- `VarIntRef` of src/util.hpp and src/util.cpp: a number in a first byte, which keeps five bits and
-- a size, and in the bytes behind it.
use corecommon.Common.{
  ℕ, zero, suc, ◌+◌, ◌-◌, ◌*◌, ◌/◌, ◌%◌, ◌^◌, ◌<◌, ◌≤◌, ◌≡◌, ◌↔◌, refl, ◌∙◌, bit_and, bit_or, List,
  get_or, set, arith, ◌==◌, ==_iff, if◌then◌else◌, every, every-at, true, ltb,
}

-- The bytes of a `VarInt`, and the `size` of the reference to it.
pub record VarIntRef : Type 0 where
  pub first : ℕ
  pub rest : List ℕ
  pub size : ℕ

-- The loop of the writing constructor; `fuel` is the number of rounds that `size < 8` leaves.
unfoldable pub write_rest : ℕ → ℕ → ℕ → List ℕ → ℕ × List ℕ
write_rest zero x size rest = (size, rest)
write_rest (suc fuel) x size rest =
    let more = write_rest fuel (x / 2 ^ 8) (size + 1) (set rest size (x % 2 ^ 8)) in
    if ltb 0 x then more else (size, rest)

-- `VarIntRef(VarInt* var_vi, uint64_t x)` over the bytes that stand behind the first.
unfoldable pub write : List ℕ → ℕ → VarIntRef
unfolding write_rest
write rest x =
    let (size, rest') = write_rest 7 (x / 2 ^ 5) 1 rest in
    record {
      first = bit_or (bit_and (x % 2 ^ 8) 31) ((size - 1) * 2 ^ 5);
      rest = rest';
      size = size;
    }

-- `VarIntRef(VarInt const* vi)`: the size is read from the first byte.
unfoldable pub from_bytes : ℕ → List ℕ → VarIntRef
from_bytes first rest = record { first = first; rest = rest; size = bit_and (first / 2 ^ 5) 7 }

-- The loop of `value` from index `i`, with the rounds that are left.
unfoldable pub read_rest : ℕ → ℕ → List ℕ → ℕ → ℕ
read_rest zero i rest x = x
read_rest (suc n) i rest x = read_rest n (i + 1) rest (bit_or x (get_or rest i 0 * 2 ^ (i * 8 + 5)))

-- Shifts by 31 bits and more are undefined there; sizes up to 3 stay below.
unfoldable pub value : VarIntRef → ℕ
unfolding read_rest
value vi = read_rest (vi.size - 1) 0 vi.rest (bit_and vi.first 31)

-- A second reference to the bytes that another one wrote.
abbrev pub reread : VarIntRef → VarIntRef
reread vi = from_bytes vi.first vi.rest

abbrev packed : ℕ → ℕ → ℕ
packed k c = bit_or (bit_and c 31) (k * 32)

packed_row : every (λ k. every (λ c. packed k c == c % 32 + k * 32) 256) 8 ≡ true
unfolding every
packed_row = refl

high_row : every (λ f. bit_and (f / 32) 7 == f / 32) 256 ≡ true
unfolding every
high_row = refl

low_row : every (λ f. bit_and f 31 == f % 32) 256 ≡ true
unfolding every
low_row = refl

-- The first byte keeps the low five bits and the size without overlap.
first_byte : (c k : ℕ) → c < 256 → k < 8 → packed k c ≡ c % 32 + k * 32
first_byte c k hc hk =
    let fits = λ (j b : ℕ). packed j b == b % 32 + j * 32 in
    let row = every-at (λ j. every (fits j) 256) 8 k packed_row hk in
    (==_iff (packed k c) (c % 32 + k * 32)).0 (every-at (fits k) 256 c row hc)

low_bits : (f : ℕ) → f < 256 → bit_and f 31 ≡ f % 32
low_bits f h =
    (==_iff (bit_and f 31) (f % 32)).0 (every-at (λ b. bit_and b 31 == b % 32) 256 f low_row h)

high_bits : (f : ℕ) → f < 256 → bit_and (f / 32) 7 ≡ f / 32
high_bits f h =
    (==_iff (bit_and (f / 32) 7) (f / 32)).0
      (every-at (λ b. bit_and (b / 32) 7 == b / 32) 256 f high_row h)

write_rest_bounds :
    (fuel x size : ℕ) (rest : List ℕ)
    → (size ≤ (write_rest fuel x size rest).0) × ((write_rest fuel x size rest).0 ≤ size + fuel)
unfolding write_rest
write_rest_bounds zero x size rest = omega arith
write_rest_bounds (suc fuel) x size rest =
    ground (arith, write_rest_bounds fuel (x / 2 ^ 8) (size + 1) (set rest size (x % 2 ^ 8)))

write_first :
    (rest : List ℕ) (x : ℕ) → (write rest x).first ≡ x % 32 + ((write rest x).size - 1) * 32
unfolding write
write_first rest x =
    let b = write_rest_bounds 7 (x / 2 ^ 5) 1 rest in
    omega (
      arith,
      first_byte (x % 256) ((write_rest 7 (x / 2 ^ 5) 1 rest).0 - 1) (omega arith) (omega arith),
    )

write-size : (rest : List ℕ) (x : ℕ) → (1 ≤ (write rest x).size) × ((write rest x).size ≤ 8)
unfolding write
write-size rest x = write_rest_bounds 7 (x / 2 ^ 5) 1 rest

-- The size that a reader takes from the bytes is one below the size that the writer had, for every
-- number and buffer; the writer's is between 1 and 8.
pub size-reread :
    (rest : List ℕ) (x : ℕ)
    → ((reread (write rest x)).size + 1 ≡ (write rest x).size)
      × (1 ≤ (write rest x).size)
      × ((write rest x).size ≤ 8)
unfolding from_bytes
size-reread rest x =
    let b = write-size rest x in
    let f = write_first rest x in omega (arith, high_bits (write rest x).first (omega arith))

write_small : (rest : List ℕ) (x : ℕ) → x < 2 ^ 13 → (write rest x).size ≤ 2
unfolding write write_rest
write_small rest x h = ground arith

value_short : (vi : VarIntRef) → vi.size ≤ 1 → value vi ≡ bit_and vi.first 31
unfolding value
value_short vi h = let e : vi.size - 1 ≡ 0 = omega arith in rw e

value_low : (rest : List ℕ) (x : ℕ) → x < 2 ^ 13 → value (reread (write rest x)) ≡ x % 32
unfolding from_bytes
value_low rest x h =
    let b = size-reread rest x in
    let f = write_first rest x in
    let small = write_small rest x h in
    value_short (reread (write rest x)) (omega arith)
    ∙ omega (arith, low_bits (write rest x).first (omega arith))

-- Below 2 ^ 13, what a reader takes from the written bytes is the number modulo 32; so it is the
-- number exactly when that is below 32.
pub value-reread :
    (rest : List ℕ) (x : ℕ)
    → x < 2 ^ 13
    → (value (reread (write rest x)) ≡ x % 32) × ((value (reread (write rest x)) ≡ x) ↔ (x < 32))
value-reread rest x h = let e = value_low rest x h in (e, ((λ r. omega arith), (λ r. omega arith)))
