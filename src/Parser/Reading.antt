-- ===== src/Parser/Reading.antt =====
-- The loops of src/parser.hpp end where each round reads something.
use corecommon.Common.{ℕ, ◌≤◌, ◌<◌, ◌≡◌, false, List, arith, ltb, ◌==◌, if-cases, inl, inr}
use corecommon.Parser.Span.{strlen, ahead}
use corecommon.Parser.State.{Parser}
use corecommon.Parser.Steps.{run_any, run_char, run_ws, run_match, run_int, run_float}
use corecommon.Parser.Syntax.{
  ParseMap, lazy_map, result_map, error_map, ignore, tuple_map, tuple_one, not_map, look_ahead,
  chain, combine, skip, multiple, array_map, many, or_else, parse_string, any, char, parse_eof,
  parse_ws, match_text, parse_int, parse_float, run,
}
use corecommon.Parser.Texts.{advance-length, IsInside, strtol-le-strlen}
use mathlib.Core.Bool.{true≢false}
use mathlib.Core.Logic.{◌⊎◌}
use corecommon.Parser.Advances.{StaysInside, run-Moves, or_false}
use corecommon.Parser.Reads.{
  Less, Eats, run_chain-Eats, run_combine-Eats, run_tuple_map-Eats, run_tuple_one-Eats, run_or-Eats,
  run_parse_string-Eats, run_skip-Eats, fail_or_skip-Less, take_value-Less,
}

-- A map that, where it succeeds, has read at least one byte, by its form alone.
unfoldable pub IsReading : {A B : Type 0} → ParseMap A B → Type 0
IsReading (tuple_map kept kept_rest head rest) = IsReading head ⊎ IsReading rest
IsReading (tuple_one head) = IsReading head
IsReading (chain kept left right) = IsReading left ⊎ IsReading right
IsReading (combine kept resmap inner) = IsReading inner
IsReading (skip kept inner) = IsReading inner
IsReading (or_else left right) = IsReading left × IsReading right
IsReading (parse_string kept inner) = IsReading inner
IsReading any = Unit
IsReading char = Unit
IsReading parse_ws = Unit
IsReading (match_text literal) = 0 < strlen literal
IsReading parse_int = Unit
IsReading (parse_float strtof) = Unit
IsReading _ = ⊥

run_char-Less : (p : Parser (Unit {0})) → IsInside p.span → Less p.span (run_char p)
unfolding run_char
run_char-Less p i =
    if-cases (Less p.span) (p.span.length == 0) _ _ (λ e u. absurd (true≢false u))
      (λ e u. let le : 1 ≤ p.span.length = ground arith in omega (arith, advance-length i le, le))

run_any-Less : (p : Parser (Unit {0})) → IsInside p.span → Less p.span (run_any p)
unfolding run_any
run_any-Less p i = fail_or_skip-Less _ 1 _ i (omega arith) λ e. ground arith

run_ws-Less : (p : Parser (Unit {0})) → IsInside p.span → Less p.span (run_ws p)
unfolding run_ws
run_ws-Less p i =
    fail_or_skip-Less _ 1 _ i (omega arith)
      λ e. let e' : (p.span.length == 0) ≡ false = (or_false _ _ e).0 in ground arith

run_match-Less :
    (literal : List ℕ) (p : Parser (Unit {0}))
    → 0 < strlen literal
    → IsInside p.span
    → Less p.span (run_match literal p)
unfolding run_match
run_match-Less literal p h i =
    fail_or_skip-Less _ (strlen literal) _ i h
      λ e. let e' : ltb p.span.length (strlen literal) ≡ false = (or_false _ _ e).0 in ground arith

pub run-Eats :
    (fuel : ℕ) {A B : Type 0} (m : ParseMap A B) → StaysInside m → IsReading m → Eats (run fuel m)
unfolding run run_int run_float StaysInside IsReading
run-Eats fuel (tuple_map kept kept_rest head rest) h (inl r) =
    run_tuple_map-Eats kept kept_rest _ _ (run-Moves fuel head h.0) (run-Moves fuel rest h.1)
      (inl (run-Eats fuel head h.0 r))
run-Eats fuel (tuple_map kept kept_rest head rest) h (inr r) =
    run_tuple_map-Eats kept kept_rest _ _ (run-Moves fuel head h.0) (run-Moves fuel rest h.1)
      (inr (run-Eats fuel rest h.1 r))
run-Eats fuel (tuple_one head) h r =
    run_tuple_one-Eats _ (run-Moves fuel head h) (run-Eats fuel head h r)
run-Eats fuel (chain kept left right) h (inl r) =
    run_chain-Eats kept _ _ (run-Moves fuel left h.0) (run-Moves fuel right h.1)
      (inl (run-Eats fuel left h.0 r))
run-Eats fuel (chain kept left right) h (inr r) =
    run_chain-Eats kept _ _ (run-Moves fuel left h.0) (run-Moves fuel right h.1)
      (inr (run-Eats fuel right h.1 r))
run-Eats fuel (combine kept resmap inner) h r =
    run_combine-Eats kept resmap _ (run-Moves fuel inner h) (run-Eats fuel inner h r)
run-Eats fuel (skip kept inner) h r = run_skip-Eats kept _ (run-Eats fuel inner h r)
run-Eats fuel (or_else left right) h r =
    run_or-Eats _ _ (run-Eats fuel left h.0 r.0) (run-Eats fuel right h.1 r.1)
run-Eats fuel (parse_string kept inner) h r =
    run_parse_string-Eats kept _ (run-Moves fuel inner h) (run-Eats fuel inner h r)
run-Eats fuel any h r = run_any-Less
run-Eats fuel char h r = run_char-Less
run-Eats fuel parse_ws h r = run_ws-Less
run-Eats fuel (match_text literal) h r = λ p i. run_match-Less literal p r i
run-Eats fuel parse_int h r = λ p i. take_value-Less p _ i (strtol-le-strlen (ahead p.span))
run-Eats fuel (parse_float strtof) h r = λ p i. take_value-Less p _ i (h (ahead p.span))
run-Eats fuel (lazy_map lzmap) h r = absurd r
run-Eats fuel (result_map resmap) h r = absurd r
run-Eats fuel (error_map cond) h r = absurd r
run-Eats fuel ignore h r = absurd r
run-Eats fuel (not_map inner) h r = absurd r
run-Eats fuel (look_ahead inner) h r = absurd r
run-Eats fuel (multiple min max default kept inner) h r = absurd r
run-Eats fuel (array_map n inner) h r = absurd r
run-Eats fuel (many min max kept inner) h r = absurd r
run-Eats fuel parse_eof h r = absurd r
