-- ===== src/Parser/Steps.antt =====
-- The `run` methods of src/parser.hpp that read the text themselves, and of the maps of results.
use corecommon.Common.{
  ℕ, ◌+◌, ◌-◌, ◌%◌, ◌^◌, Bool, true, not, ◌||◌, List, some, get_or, ltb, ◌==◌, if◌then◌else◌, ℤ,
}
use corecommon.Parser.Span.{ParserSpan, strlen, strncmp_same, strchr_found, strtol, ahead, advance}
use corecommon.Parser.State.{
  Parser, convert, with_res, codes, stat_expected, stat_error, stat_value, stat_unexpected,
  ParseStatus,
}

-- `stat` and `expected`, set at the start of a primitive.
abbrev expecting : {A : Type 0} → Parser A → List ℕ → Parser A
expecting p text = record p { stat = stat_expected; expected = some text }

-- `err = true` where the test holds, and `span += n` elsewhere.
unfoldable pub fail_or_skip : {A : Type 0} → Bool → ℕ → Parser A → Parser A
fail_or_skip fails n p =
    if fails then record p { err = true } else record p { span = advance p.span n }

unfoldable pub run_any : Parser (Unit {0}) → Parser (Unit {0})
run_any p = fail_or_skip (p.span.length == 0) 1 (expecting p (codes "anything"))

-- The character is the first of the whole text, whatever has been read: `*parser.span.start`.
unfoldable pub run_char : Parser (Unit {0}) → Parser ℕ
run_char p =
    let new = expecting (convert (λ _. 0) p) (codes "a character") in
    if p.span.length == 0
    then record new { err = true }
    else record new { res = get_or p.span.start 0 0; span = advance p.span 1 }

unfoldable pub run_eof : Parser (Unit {0}) → Parser (Unit {0})
run_eof p =
    let new = expecting p (codes "end of input") in
    if not (p.span.length == 0) then record new { err = true } else new

unfoldable pub run_ws : Parser (Unit {0}) → Parser (Unit {0})
run_ws p =
    fail_or_skip
      (p.span.length == 0 || not (strchr_found (codes "\r\n ") (get_or (ahead p.span) 0 0))) 1
      (expecting p (codes "whitespace"))

unfoldable pub run_match : List ℕ → Parser (Unit {0}) → Parser (Unit {0})
run_match literal p =
    fail_or_skip
      (ltb p.span.length (strlen literal)
        || not (strncmp_same (ahead p.span) literal (strlen literal)))
      (strlen literal) (expecting p literal)

-- `span.length -= end - span.text; span.text = end`, where `end` is n bytes ahead.
abbrev pub move_to : ParserSpan → ℕ → ParserSpan
move_to s n = record s { length = (s.length + 2 ^ 32 - n % 2 ^ 32) % 2 ^ 32; text = s.text + n }

-- The end of `ParseInt` and `ParseFloat`, on what `strtol` or `strtof` returns.
unfoldable pub take_value : {A : Type 0} → Parser (Unit {0}) → A × ℕ → Parser A
take_value p (value, n) =
    let new = record (convert (λ _. value) p) { stat = stat_value } in
    if n == 0 then record new { err = true } else record new { span = move_to p.span n }

unfoldable pub run_int : Parser (Unit {0}) → Parser ℤ
run_int p = take_value p (strtol (ahead p.span))

unfoldable pub run_float : {F : Type 0} → (List ℕ → F × ℕ) → Parser (Unit {0}) → Parser F
run_float strtof p = take_value p (strtof (ahead p.span))

unfoldable pub run_result_map : {A B : Type 0} → (A → B) → Parser A → Parser B
run_result_map resmap p = with_res p (resmap p.res)

unfoldable pub run_ignore : {A : Type 0} → Parser A → Parser (Unit {0})
run_ignore p = convert (λ _. tt) p

unfoldable pub run_error_map : {A : Type 0} → (A → Bool) → Parser A → Parser A
run_error_map cond p = if cond p.res then record p { err = true; stat = stat_error } else p

-- `Not` swaps two statuses, and success with failure.
abbrev pub swap_status : ParseStatus → ParseStatus
swap_status stat_expected = stat_unexpected
swap_status stat_unexpected = stat_expected
swap_status s = s

unfoldable pub negate : Parser (Unit {0}) → Parser (Unit {0})
negate p = record p { stat = swap_status p.stat; err = not p.err }
