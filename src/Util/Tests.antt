-- ===== src/Util/Tests.antt =====
-- Runs of the functions of src/util.cpp, and their theorems at concrete inputs.
use corecommon.Common.{some, ℕ, ◌+◌, ◌%◌, ◌<◌, ◌≤◌, ◌≡◌, ◌↔◌, refl, List, [], ◌∷◌, arith}
use corecommon.Util.Hex.{charhex, hexchar, decode, decode-charhex}
use corecommon.Util.VarInt.{write, value, reread, size-reread, value-reread}
use corecommon.Util.Binomial.{binomial, choose, binomial-choose}

hex_runs : (charhex 0xaf ≡ (b'A', b'F')) × (hexchar b'f' ≡ 15) × (hexchar b'g' ≡ 0)
unfolding charhex hexchar
hex_runs = (refl, refl, refl)

decode-charhex_example : decode (charhex 0xaf) ≡ 0xaf
decode-charhex_example = decode-charhex 0xaf (omega arith)

abbrev buffer : List ℕ
buffer = 0 ∷ 0 ∷ 0 ∷ 0 ∷ 0 ∷ 0 ∷ 0 ∷ 0 ∷ []

-- 300 = 9 * 32 + 12: the 9 is written behind the place from which it is read.
varint_runs :
    (write buffer 300 ≡ record { first = 44; rest = 0 ∷ 9 ∷ 0 ∷ 0 ∷ 0 ∷ 0 ∷ 0 ∷ 0 ∷ []; size = 2 })
    × (value (write buffer 300) ≡ 12)
unfolding write value
varint_runs = (refl, refl)

size-reread_example :
    ((reread (write buffer 300)).size + 1 ≡ (write buffer 300).size)
    × (1 ≤ (write buffer 300).size)
    × ((write buffer 300).size ≤ 8)
size-reread_example = size-reread buffer 300

value-reread_example :
    (value (reread (write buffer 300)) ≡ 300 % 32)
    × ((value (reread (write buffer 300)) ≡ 300) ↔ (300 < 32))
value-reread_example = value-reread buffer 300 (omega arith)

binomial_run : binomial 10 4 ≡ some 210
unfolding binomial
binomial_run = refl

binomial-choose_example : binomial 10 4 ≡ some (choose 10 4)
binomial-choose_example = binomial-choose 10 4 (omega arith) (omega arith)
