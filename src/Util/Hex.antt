-- ===== src/Util/Hex.antt =====
-- `hexchar` and `charhex` of src/util.cpp. A char is the number of its byte.
use corecommon.Common.{
  ℕ, ◌+◌, ◌-◌, ◌*◌, ◌/◌, ◌%◌, ◌<◌, ◌≡◌, refl, true, ◌&&◌, ltb, leb, ◌==◌, ==_iff, if◌then◌else◌,
  every, every-at,
}

-- The value of a hexadecimal digit in either case, and 0 for any other character.
unfoldable pub hexchar : ℕ → ℕ
hexchar hex =
    if leb b'0' hex && leb hex b'9'
    then hex - b'0'
    else if leb b'A' hex && leb hex b'F'
    then hex - b'A' + 10
    else if leb b'a' hex && leb hex b'f'
    then hex - b'a' + 10
    else 0

-- One digit, as each half of `charhex` writes it.
unfoldable pub hex_digit : ℕ → ℕ
hex_digit n = if ltb n 10 then n + b'0' else n - 10 + b'A'

-- `out[0]` and `out[1]`.
unfoldable pub charhex : ℕ → ℕ × ℕ
unfolding hex_digit
charhex chr = (hex_digit (chr / 16), hex_digit (chr % 16))

-- What a reader makes of two digits.
abbrev pub decode : ℕ × ℕ → ℕ
decode out = hexchar out.0 * 16 + hexchar out.1

charhex_table : every (λ c. decode (charhex c) == c) 256 ≡ true
unfolding hexchar charhex every
charhex_table = refl

-- Two digits that `charhex` wrote of a byte are read back by `hexchar` as that byte.
pub decode-charhex : (c : ℕ) → c < 256 → decode (charhex c) ≡ c
decode-charhex c h =
    (==_iff (decode (charhex c)) c).0
      (every-at (λ c. decode (charhex c) == c) 256 c charhex_table h)
