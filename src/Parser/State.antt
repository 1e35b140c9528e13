-- ===== src/Parser/State.antt =====
-- `ParseStatus` and the state `Parser` of src/parser.hpp, with its conversions and its messages.
use Prim.Native.Char.{code}
use Prim.Native.String.{String}
use corecommon.Common.{
  ℕ, zero, suc, ◌+◌, ◌/◌, ◌%◌, Bool, false, List, [], ◌∷◌, ◌++◌, Option, none, some, ltb,
  if◌then◌else◌,
}
use corecommon.Parser.Span.{ParserSpan, span_of, rest_of, line_col}

pub data ParseStatus : Type 0 where
  stat_none stat_expected stat_unexpected stat_end_of_file stat_error stat_value : ParseStatus

-- `Parser<Result>`. A pointer `expected` that nothing has set is `none`.
pub record Parser (A : Type 0) : Type 0 where
  pub span : ParserSpan
  pub res : A
  pub err : Bool
  pub stat : ParseStatus
  pub expected : Option (List ℕ)

-- `Parser(char const* text, Result default_res)`; the constructor from a text alone passes the
-- default of the type.
unfoldable pub parser_of : {A : Type 0} → List ℕ → A → Parser A
parser_of text res = record {
  span = span_of text;
  res = res;
  err = false;
  stat = stat_none;
  expected = none;
}

module _ {A B : Type 0} where
  -- `Parser(Parser<OldResult> const& parser, Result res)`.
  abbrev pub with_res : Parser A → B → Parser B
  with_res p res = record {
    span = p.span;
    res = res;
    err = false;
    stat = stat_none;
    expected = none;
  }

  -- `Parser(Parser<OldResult> const& parser)`. `kept` says what becomes of the result: C++ copies
  -- it where the types are the same, and makes a default one elsewhere.
  abbrev pub convert : (kept : A → B) → Parser A → Parser B
  convert kept p = record {
    span = p.span;
    res = kept p.res;
    err = p.err;
    stat = p.stat;
    expected = p.expected;
  }

abbrev pub codes : String → List ℕ
codes String.[] = []
codes (String.◌∷◌ c s) = code c ∷ codes s

-- The decimal digits that a stream prints, of at most `fuel` digits.
unfoldable pub decimal_loop : ℕ → ℕ → List ℕ
decimal_loop zero n = []
decimal_loop (suc fuel) n =
    let front = decimal_loop fuel (n / 10) in
    let digit = b'0' + n % 10 in if ltb n 10 then digit ∷ [] else front ++ digit ∷ []

abbrev pub decimal : ℕ → List ℕ
decimal n = decimal_loop (suc n) n

-- `ostream << span`.
unfoldable pub print_span : ParserSpan → List ℕ
print_span s =
    let lc = line_col s in
    codes "\""
    ++ rest_of s
    ++ codes "\" ("
    ++ decimal lc.line
    ++ codes ":"
    ++ decimal lc.col
    ++ codes ")"

-- A message that quotes what was expected; there is none where nothing has set it.
abbrev quoting : Option (List ℕ) → (List ℕ → List ℕ) → Option (List ℕ)
quoting none message = none
quoting (some text) message = some (message text)

-- `err_string` by the status. It returns nothing defined for `ParseStatus::Error`.
unfoldable pub message_for : ParseStatus → Option (List ℕ) → ParserSpan → Option (List ℕ)
message_for stat_expected expected span =
    quoting expected
      λ text. codes "expected \"" ++ text ++ codes "\", got " ++ print_span span ++ codes "."
message_for stat_unexpected expected span =
    quoting expected
      λ text. codes "unexpected \"" ++ text ++ codes "\" in " ++ print_span span ++ codes "."
message_for stat_end_of_file expected span =
    some (codes "unexpected EOF at " ++ print_span span ++ codes ".")
message_for stat_value expected span =
    some (codes "error parsing value at " ++ print_span span ++ codes ".")
message_for stat_none expected span = some (codes "nondescript error")
message_for stat_error expected span = none

unfoldable pub err_string : {A : Type 0} → Parser A → Option (List ℕ)
unfolding message_for
err_string p = message_for p.stat p.expected p.span
