-- ===== src/Config/Tests.antt =====
-- Runs of the configuration files of src/config.cpp.
use corecommon.Common.{
  ℕ, ◌+◌, ◌%◌, ◌^◌, ◌≡◌, ◌↔◌, refl, ap, Bool, true, false, ◌==◌, ◌&&◌, ==_iff, none, some, ◌>>=◌,
  List, [], ◌∷◌, arith, length, replicate, pos, get_or, drop,
}
use corecommon.HashMap.Table.{Key, Value, HashMap}
use corecommon.HashMap.Iterating.{visited, visit_loop, begin, step_on, settle}
use corecommon.Parser.Span.{
  span_of, count_while, strncmp_same, strchr_found, strtol, digits_value, advance,
}
use corecommon.Parser.State.{Parser, codes, parser_of, decimal_loop}
use corecommon.Parser.Steps.{
  run_any, run_match, run_ws, run_int, run_float, run_eof, fail_or_skip, take_value, run_ignore,
  run_result_map, negate,
}
use corecommon.Parser.Maps.{
  run_chain, run_or, run_not, run_look_ahead, run_parse_string, run_skip, run_tuple_map,
  run_tuple_one, many_loop, multiple_loop, run_multiple,
}
use corecommon.Parser.Syntax.{run}
use corecommon.Parser.Texts.{IsInside}
use corecommon.Config.Format.{
  Floats, ConfigValue, of_long, of_bool, given, quoted, quoted_text, newline, sep, name, long_value,
  float_value, bool_value, value, entry, entries, print_entries, parse, save, insert_all,
}
use corecommon.Config.Entries.{IsName}
use corecommon.Config.Values.{IsWritten}
use corecommon.Config.Quoted.{quoted-endless}
use corecommon.Config.Saved.{IsSaved, rows, parse-save}

abbrev same_text : List ℕ → List ℕ → Bool
same_text [] [] = true
same_text [] (d ∷ t) = false
same_text (c ∷ s) [] = false
same_text (c ∷ s) (d ∷ t) = (c == d) && same_text s t

same_text_iff : (s t : List ℕ) → (same_text s t ≡ true) ↔ (s ≡ t)
same_text_iff [] [] = (λ e. refl, λ e. refl)
same_text_iff [] (d ∷ t) = (λ e. cc, λ e. cc)
same_text_iff (c ∷ s) [] = (λ e. cc, λ e. cc)
same_text_iff (c ∷ s) (d ∷ t) =
    let (to, back) = same_text_iff s t in
    (
      (λ e.
          let (head, tail) : ((c == d) ≡ true) × (same_text s t ≡ true) = ground arith in
          cc ((==_iff c d).0 head, to tail)),
      (λ e.
          let head : c ≡ d = ap (λ x. get_or x 0 0) e in
          let tail : s ≡ t = ap (drop 1) e in
          let same : (c == d) ≡ true = (==_iff c d).1 head in rw same (back tail)),
    )

instance abbrev text_key : Key (List ℕ)
text_key = record {
  equal = same_text;
  equal_iff = same_text_iff;
  hash = λ s. (257 + length s) % 2 ^ 64;
  hash-lt = λ s. omega arith;
  default_key = [];
}

-- A platform that reads no `float`.
abbrev no_floats : Floats
no_floats = record {
  Float = ℕ;
  strtof = λ s. (0, 0);
  strtof-le-strlen = λ s. omega arith;
  print_float = λ f. codes "0";
  no_number = λ c s e. refl;
}

instance abbrev text_value : Value (ConfigValue no_floats)
text_value = record { default_value = given no_floats (of_bool false) }

abbrev string_line : Parser (Unit {0})
string_line = parser_of (codes "\"abc\"") tt

string_line-IsInside : IsInside string_line.span
unfolding parser_of span_of count_while
string_line-IsInside = record { to_end = refl; fits = omega arith }

quoted-endless_example : run 1000 quoted string_line ≡ none
unfolding parser_of span_of count_while
quoted-endless_example =
    quoted-endless 1000 string_line (codes "abc\"") string_line-IsInside refl refl (
      (λ tail e. let d : b'a' ≡ b'"' = ap (λ x. get_or x 0 0) e in omega arith),
      (λ tail e. let d : b'a' ≡ b'\\' = ap (λ x. get_or x 0 0) e in omega arith),
    )

-- A map with one entry under the name k.
abbrev settings : HashMap (List ℕ) (ConfigValue no_floats)
settings = record {
  count = 1;
  control_bytes = (1 ∷ replicate 15 0) ∷ [];
  buckets =
      (codes "k", given no_floats (of_long (pos 5)))
      ∷ replicate 15 ([], given no_floats (of_bool false));
}

abbrev no_settings : HashMap (List ℕ) (ConfigValue no_floats)
no_settings = record {
  count = 0;
  control_bytes = replicate 16 0 ∷ [];
  buckets = replicate 16 ([], given no_floats (of_bool false));
}

abbrev saved : List (List ℕ × ConfigValue no_floats)
saved = (codes "k", given no_floats (of_long (pos 5))) ∷ []

visited-settings : visited 20 settings ≡ some saved
unfolding visited visit_loop begin step_on settle
visited-settings = refl

saved_text : print_entries no_floats saved ≡ codes "k = 5\n"
unfolding print_entries decimal_loop
saved_text = refl

saved-IsSaved : IsSaved no_floats saved
unfolding IsSaved IsName IsWritten strchr_found
saved-IsSaved = ((λ e. ((refl, (λ f. omega (arith, f)), tt), (λ f. cc f), omega arith)), tt)

parse-save_example :
    (save no_floats 20 settings >>= parse no_floats 20 no_settings)
    ≡ insert_all no_floats 20 no_settings (rows no_floats saved)
parse-save_example =
    parse-save no_floats 18 settings no_settings saved visited-settings saved-IsSaved
      (rw saved_text (omega arith)) (rw saved_text (omega arith))

-- `ParseInt` takes the front of a `float`, and the file with it does not parse.
float_lost : parse no_floats 20 no_settings (codes "x = 1.5\n") ≡ some no_settings
unfolding parse entries entry name sep value long_value float_value bool_value newline quoted
    quoted_text run run_any run_match run_ws run_int run_float run_eof fail_or_skip take_value
    run_ignore run_result_map negate run_chain run_or run_not run_look_ahead run_parse_string
    run_skip run_tuple_map run_tuple_one many_loop multiple_loop run_multiple span_of count_while
    strncmp_same strchr_found strtol digits_value advance parser_of insert_all
float_lost = refl
