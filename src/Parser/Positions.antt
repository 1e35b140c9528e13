-- ===== src/Parser/Positions.antt =====
-- The lines and columns of src/parser.cpp, which are counted backwards.
use corecommon.Common.{
  ℕ, zero, suc, ◌+◌, ◌%◌, ◌^◌, ◌≤◌, ◌<◌, ◌≡◌, refl, true, false, List, get_or, arith, ◌==◌,
  if◌then◌else◌, Bool-cases, inl, inr,
}
use corecommon.Parser.Span.{ParserSpan, LineCol, line_col, count_back, count_byte}

-- The position after reading the first n bytes forwards: a newline ends a line.
pub read_byte : LineCol → ℕ → LineCol
read_byte lc c =
    if c == b'\n'
    then record { line = lc.line + 1; col = 0 }
    else record { line = lc.line; col = lc.col + 1 }

pub position : List ℕ → ℕ → LineCol
position start zero = record { line = 1; col = 0 }
position start (suc n) = read_byte (position start n) (get_or start n 0)

module _ (lc : LineCol) (c : ℕ) where
  count_byte-newline :
      (c == b'\n') ≡ true
      → 1 ≤ lc.line
      → lc.line + 1 < 2 ^ 32
      → count_byte lc c ≡ record { line = lc.line + 1; col = lc.col }
  unfolding count_byte
  count_byte-newline e h b =
      let same : (lc.line + 1) % 2 ^ 32 ≡ lc.line + 1 = omega arith in
      let ne : (lc.line + 1 == 1) ≡ false = ground arith in rw e (rw same (rw ne refl))

  count_byte-above : (c == b'\n') ≡ false → 2 ≤ lc.line → count_byte lc c ≡ lc
  unfolding count_byte
  count_byte-above e h = let ne : (lc.line == 1) ≡ false = ground arith in rw e (rw ne refl)

  count_byte-first :
      (c == b'\n') ≡ false
      → lc.line ≡ 1
      → lc.col + 1 < 2 ^ 32
      → count_byte lc c ≡ record { line = 1; col = lc.col + 1 }
  unfolding count_byte
  count_byte-first e h b =
      let same : (lc.col + 1) % 2 ^ 32 ≡ lc.col + 1 = omega arith in rw e (rw h (rw same refl))

  read_byte-newline : (c == b'\n') ≡ true → read_byte lc c ≡ record { line = lc.line + 1; col = 0 }
  unfolding read_byte
  read_byte-newline e = rw e refl

  read_byte-other :
      (c == b'\n') ≡ false → read_byte lc c ≡ record { line = lc.line; col = lc.col + 1 }
  unfolding read_byte
  read_byte-other e = rw e refl

-- Above the line that the text is on, only lines are counted.
count_back-above :
    (start : List ℕ) (n : ℕ) (lc : LineCol)
    → 2 ≤ lc.line
    → lc.line + n < 2 ^ 32
    → ((count_back start n lc).line + 1 ≡ lc.line + (position start n).line)
      × ((count_back start n lc).col ≡ lc.col)
unfolding count_back position
count_back-above start zero lc h b = (refl, refl)
count_back-above start (suc n) lc h b = elim (Bool-cases (get_or start n 0 == b'\n')) [
  | inl e ↦
      let (l, c) =
        count_back-above start n (record { line = lc.line + 1; col = lc.col }) (omega arith)
          (omega arith) in
      rw
        (
          count_back,
          count_byte-newline lc _ e (omega arith) (omega arith),
          read_byte-newline (position start n) _ e,
        )
        (omega (arith, l), c)
  | inr e ↦
      rw (count_back, count_byte-above lc _ e h, read_byte-other (position start n) _ e)
        (count_back-above start n lc h (omega arith))
]

count_back-position :
    (start : List ℕ) (n c : ℕ)
    → c + n + 2 < 2 ^ 32
    → ((count_back start n (record { line = 1; col = c })).line ≡ (position start n).line)
      × ((count_back start n (record { line = 1; col = c })).col ≡ c + (position start n).col)
unfolding count_back position
count_back-position start zero c b = (refl, omega arith)
count_back-position start (suc n) c b = elim (Bool-cases (get_or start n 0 == b'\n')) [
  | inl e ↦
      let (l, d) =
        count_back-above start n (record { line = 2; col = c }) (omega arith) (omega arith) in
      rw
        (
          count_back,
          count_byte-newline (record { line = 1; col = c }) _ e (omega arith) (omega arith),
          read_byte-newline (position start n) _ e,
        )
        (omega (arith, l), omega (arith, d))
  | inr e ↦
      let (l, d) = count_back-position start n (c + 1) (omega arith) in
      rw
        (
          count_back,
          count_byte-first (record { line = 1; col = c }) _ e refl (omega arith),
          read_byte-other (position start n) _ e,
        )
        (l, omega (arith, d))
]

-- `line_col`, which counts backwards from the byte at `text`, is the position that reading the text
-- forwards up to and with that byte has: the line from 1, and the number of bytes since its start.
-- The hypothesis: the byte stands below 2 ^ 32 - 3, so that no `unsigned` counter wraps.
pub line_col-position :
    (s : ParserSpan)
    → s.text + 3 < 2 ^ 32
    → ((line_col s).line ≡ (position s.start (s.text + 1)).line)
      × ((line_col s).col ≡ (position s.start (s.text + 1)).col)
unfolding line_col
line_col-position s b =
    let (l, c) = count_back-position s.start (s.text + 1) 0 (omega arith) in (l, omega (arith, c))
