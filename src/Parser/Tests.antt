-- ===== src/Parser/Tests.antt =====
-- Runs of the maps of src/parser.hpp.
use corecommon.Common.{
  ℕ, ◌≡◌, ◌≢◌, refl, Bool, false, Option, none, some, List, [], ◌∷◌, ◌++◌, pos, negsuc, arith,
}
use corecommon.Parser.Span.{
  ParserSpan, count_while, strncmp_same, strchr_found, digits_value, strtol, span_of, advance,
  rest_of, count_back, count_byte, line_col,
}
use corecommon.Parser.State.{
  Parser, codes, parser_of, err_string, message_for, print_span, decimal_loop,
}
use corecommon.Parser.Steps.{
  run_any, run_char, run_ws, run_match, run_int, fail_or_skip, take_value, negate,
}
use corecommon.Parser.Maps.{
  run_chain, run_parse_string, many_loop, run_not, multiple_loop, array_loop, run_multiple,
}
use corecommon.Parser.Syntax.{
  ParseMap, many, match_text, not_map, parse_string, parse_ws, any, chain, parse_int, no_limit, run,
  multiple, array_map, char,
}
use corecommon.Parser.Texts.{IsInside, Follows}
use corecommon.Parser.Advances.{StaysInside, run-Follows}
use corecommon.Parser.Reading.{IsReading}
use corecommon.Parser.Ending.{IsEnding, run-ends}
use corecommon.Parser.Endless.{many-endless}
use corecommon.Parser.Messages.{IsExplaining, run-err_string}
use corecommon.Parser.Literal.{run_match-IsString, parse_string-rest_of}
use corecommon.Parser.Positions.{position, line_col-position}

abbrev blanks : Parser (Unit {0})
blanks = parser_of (codes "  x") tt

abbrev spaces : ParseMap (Unit {0}) (Unit {0})
spaces = many 0 no_limit (λ _. tt) parse_ws

blanks-IsInside : IsInside blanks.span
unfolding parser_of span_of count_while
blanks-IsInside = record { to_end = refl; fits = omega arith }

-- Two blanks are read.
spaces_read :
    run 4 spaces blanks
    ≡ some
        (record (parser_of (codes "  x") tt) { span = record blanks.span { text = 2; length = 1 } })
unfolding run many_loop run_ws fail_or_skip strchr_found advance parser_of span_of count_while
spaces_read = refl

run-ends_example : (q : Parser (Unit {0})) × (run 4 spaces blanks ≡ some q)
unfolding StaysInside IsEnding IsReading parser_of span_of count_while
run-ends_example = run-ends 4 spaces blanks tt (tt, tt) blanks-IsInside (omega arith)

run-Follows_example :
    Follows blanks.span (record blanks.span { text = 2; length = 1 })
    × IsInside (record blanks.span { text = 2; length = 1 })
unfolding StaysInside
run-Follows_example = run-Follows 4 spaces blanks tt blanks-IsInside spaces_read

-- The loop over the text of a quoted string, at a byte that is no quote.
many-endless_example :
    run 100 (many 0 no_limit (λ _. tt) (not_map (match_text (codes "\"")))) blanks ≡ none
unfolding run run_not negate run_match fail_or_skip strncmp_same parser_of span_of count_while
many-endless_example =
    many-endless 100 0 no_limit (λ _. tt) (not_map (match_text (codes "\""))) blanks refl refl refl
      (omega arith)

run-err_string_example : err_string (run_match (codes "y") blanks) ≢ none
unfolding run IsExplaining err_string message_for parser_of
run-err_string_example = run-err_string 4 (match_text (codes "y")) blanks tt (λ e. cc) refl

-- The message of a failed `Match`.
message :
    err_string (run_match (codes "y") blanks) ≡ some (codes "expected \"y\", got \"  x\" (1:1).")
unfolding err_string message_for print_span decimal_loop line_col count_back count_byte run_match
    fail_or_skip strncmp_same parser_of span_of count_while
message = refl

run_match-IsString_example :
    ((tail : List ℕ)
      → rest_of blanks.span ≡ codes " " ++ tail
      → ((run_match (codes " ") blanks).err ≡ false)
        × (rest_of (run_match (codes " ") blanks).span ≡ tail))
    × ((run_match (codes " ") blanks).err ≡ false
        → (tail : List ℕ) × (rest_of blanks.span ≡ codes " " ++ tail))
unfolding count_while parser_of
run_match-IsString_example = run_match-IsString (codes " ") blanks refl blanks-IsInside refl

-- `ParseString` around the loop over blanks.
abbrev read_blanks : ParseMap (Unit {0}) (List ℕ)
read_blanks = parse_string (λ _. []) spaces

abbrev after_blanks : Parser (List ℕ)
after_blanks = record (parser_of (codes "  x") (codes "  ")) {
  span = record blanks.span { text = 2; length = 1 };
}

blanks_read : run 4 read_blanks blanks ≡ some after_blanks
unfolding run run_parse_string many_loop run_ws fail_or_skip strchr_found advance parser_of span_of
    count_while
blanks_read = refl

parse_string-rest_of_example : codes "  " ++ rest_of after_blanks.span ≡ rest_of blanks.span
unfolding StaysInside parser_of
parse_string-rest_of_example =
    parse_string-rest_of 4 (λ _. []) spaces blanks tt blanks-IsInside blanks_read refl

abbrev second_line : ParserSpan
second_line = record { start = codes "a\nbc"; text = 3; length = 1 }

line_col-position_example :
    ((line_col second_line).line ≡ (position (codes "a\nbc") 4).line)
    × ((line_col second_line).col ≡ (position (codes "a\nbc") 4).col)
line_col-position_example = line_col-position second_line (omega arith)

second_line_found : line_col second_line ≡ record { line = 2; col = 2 }
unfolding line_col count_back count_byte
second_line_found = refl

number_read : strtol (codes " -42;") ≡ (negsuc 41, 4)
unfolding strtol count_while digits_value
number_read = refl

number_clamped : strtol (codes "9223372036854775808") ≡ (pos 9223372036854775807, 19)
unfolding strtol count_while digits_value
number_clamped = refl

abbrev two_letters : Parser (Unit {0})
two_letters = parser_of (codes "ac") tt

abbrev res_of : {A : Type 0} → Option (Parser A) → Option A
res_of none = none
res_of (some p) = some p.res

abbrev span_after : {A : Type 0} → Option (Parser A) → Option (Bool × ℕ)
span_after none = none
span_after (some p) = some (p.err, p.span.text)

-- `Char` reads the first byte of the text even after that byte was read.
first_byte_again : res_of (run 4 (chain (λ _. 0) any char) two_letters) ≡ some b'a'
unfolding run run_chain run_any run_char fail_or_skip advance parser_of span_of count_while
first_byte_again = refl

-- `Not` passes a map that failed after it had read a byte, and stays where it failed.
not_reads :
    span_after (
      run 4
        (not_map (chain (λ _. tt) (match_text (codes "a")) (match_text (codes "b"))))
        two_letters)
    ≡ some (false, 1)
unfolding run run_not negate run_chain run_match fail_or_skip advance strncmp_same parser_of span_of
    count_while
not_reads = refl

-- The result of `Multiple` starts with `min` elements that were not read.
spurious :
    res_of (run 4 (multiple 1 2 (pos 7) (λ _. []) parse_int) (parser_of (codes "5") tt))
    ≡ some (pos 7 ∷ pos 5 ∷ [])
unfolding run run_multiple multiple_loop run_int take_value strtol digits_value parser_of span_of
    count_while
spurious = refl

-- `ArrayMap` succeeds where its inner map fails.
array_passes :
    span_after (run 4 (array_map 2 (match_text (codes "x"))) two_letters) ≡ some (false, 0)
unfolding run array_loop run_match fail_or_skip strncmp_same parser_of span_of count_while
array_passes = refl
