-- ===== src/Parser/Span.antt =====
-- `ParserSpan` of src/parser.hpp and src/parser.cpp, and the string functions of C that parsers use.
-- A pointer into the text is an offset from `start`; bytes past the end read as 0.
use corecommon.Common.{
  ℕ, zero, suc, ◌+◌, ◌-◌, ◌*◌, ◌%◌, ◌^◌, Bool, true, false, not, ◌&&◌, ◌||◌, List, [], ◌∷◌, get_or,
  take, drop, ◌==◌, ltb, leb, if◌then◌else◌, ℤ, pos, negsuc,
}

-- The bytes at the front of a string that pass a test.
unfoldable pub count_while : (ℕ → Bool) → List ℕ → ℕ
count_while test [] = 0
count_while test (c ∷ cs) = let rest = count_while test cs in if test c then suc rest else 0

abbrev pub is_text : ℕ → Bool
is_text c = not (c == 0)

abbrev pub strlen : List ℕ → ℕ
strlen s = count_while is_text s

-- `strncmp(s, t, n) == 0`.
unfoldable pub strncmp_same : List ℕ → List ℕ → ℕ → Bool
strncmp_same s t zero = true
strncmp_same s t (suc n) =
    let rest = strncmp_same (drop 1 s) (drop 1 t) n in
    let c = get_or s 0 0 in if not (c == get_or t 0 0) then false else if c == 0 then true else rest

-- `strchr(set, c) != nullptr`, which finds the end of the set too.
unfoldable pub strchr_found : List ℕ → ℕ → Bool
strchr_found [] c = c == 0
strchr_found (d ∷ set) c =
    let rest = strchr_found set c in if c == d then true else if d == 0 then false else rest

abbrev pub is_space : ℕ → Bool
is_space c = c == b' ' || (leb 9 c && leb c 13)

abbrev pub is_digit : ℕ → Bool
is_digit c = leb b'0' c && leb c b'9'

unfoldable pub digits_value : ℕ → List ℕ → ℕ
digits_value n [] = n
digits_value n (c ∷ cs) = digits_value (10 * n + (c - b'0')) cs

-- A `long` of 64 bits, to which `strtol` clamps.
abbrev pub clamp_long : Bool → ℕ → ℤ
clamp_long minus n =
    if minus
    then if n == 0 then pos 0 else if ltb (2 ^ 63) n then negsuc (2 ^ 63 - 1) else negsuc (n - 1)
    else if ltb n (2 ^ 63)
    then pos n
    else pos (2 ^ 63 - 1)

abbrev pub is_sign : ℕ → Bool
is_sign c = c == b'-' || c == b'+'

-- `strtol(s, &end, 10)`: the value and `end - s`, which is 0 where no digit is found.
unfoldable pub strtol : List ℕ → ℤ × ℕ
strtol s =
    let blank = count_while is_space s in
    let sign = get_or (drop blank s) 0 0 in
    let signed = if is_sign sign then blank + 1 else blank in
    let count = count_while is_digit (drop signed s) in
    if count == 0
    then (pos 0, 0)
    else (clamp_long (sign == b'-') (digits_value 0 (take count (drop signed s))), signed + count)

pub record ParserSpan : Type 0 where
  pub start : List ℕ
  pub text : ℕ
  pub length : ℕ

-- What `text` points at, up to the end of the string and beyond.
abbrev pub ahead : ParserSpan → List ℕ
ahead s = drop s.text s.start

-- The bytes that are left to read.
abbrev pub rest_of : ParserSpan → List ℕ
rest_of s = take s.length (ahead s)

unfoldable pub span_of : List ℕ → ParserSpan
span_of text = record { start = text; text = 0; length = strlen text % 2 ^ 32 }

unfoldable pub span_from : ParserSpan → ℕ → ParserSpan
span_from from length = record { start = from.start; text = from.text; length = length }

-- `span += n`, on an `unsigned` length.
unfoldable pub advance : ParserSpan → ℕ → ParserSpan
advance s n = record s { length = (s.length + 2 ^ 32 - n % 2 ^ 32) % 2 ^ 32; text = s.text + n }

pub record LineCol : Type 0 where
  pub line : ℕ
  pub col : ℕ

-- The body of the loop, on the byte at `x`.
unfoldable pub count_byte : LineCol → ℕ → LineCol
count_byte lc c =
    let line = if c == b'\n' then (lc.line + 1) % 2 ^ 32 else lc.line in
    record { line = line; col = if line == 1 then (lc.col + 1) % 2 ^ 32 else lc.col }

-- The loop over the n bytes that end at `x`, backwards.
unfoldable pub count_back : List ℕ → ℕ → LineCol → LineCol
count_back start zero lc = lc
count_back start (suc n) lc = count_back start n (count_byte lc (get_or start n 0))

unfoldable pub line_col : ParserSpan → LineCol
line_col s = count_back s.start (s.text + 1) (record { line = 1; col = 0 })
