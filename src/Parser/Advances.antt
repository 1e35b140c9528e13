-- ===== src/Parser/Advances.antt =====
-- Every map of src/parser.hpp stays within the text and never goes back.
use corecommon.Common.{
  ℕ, ◌≤◌, ◌≡◌, Bool, false, not, ◌||◌, List, [], some, arith, ltb, ◌==◌, if-cases, After-some,
}
use corecommon.Parser.Span.{is_text, strlen, ParserSpan, advance, ahead}
use corecommon.Parser.State.{Parser}
use corecommon.Parser.Steps.{
  run_any, run_char, run_eof, run_ws, run_match, run_int, run_float, fail_or_skip, take_value,
  run_result_map, run_error_map, run_ignore,
}
use corecommon.Parser.Maps.{run_multiple}
use corecommon.Parser.Syntax.{
  ParseMap, lazy_map, result_map, error_map, ignore, tuple_map, tuple_one, not_map, look_ahead,
  chain, combine, skip, multiple, array_map, many, or_else, parse_string, any, char, parse_eof,
  parse_ws, match_text, parse_int, parse_float, run,
}
use corecommon.Parser.Texts.{
  IsInside, Follows, Follows-refl, Follows-IsInside, advance-Follows, strtol-le-strlen,
  count_while-drop,
}
use corecommon.Parser.Moves.{
  Past, Moves, run_chain-Moves, run_combine-Moves, run_tuple_map-Moves, run_tuple_one-Moves,
  run_look_ahead-Moves, run_or-Moves, run_parse_string-Moves, many_loop-Moves, multiple_loop-Moves,
  array_loop-Moves, run_skip-Moves, run_not-Moves,
}

pub fail_or_skip-Follows :
    {A : Type 0} (b : Bool) (n : ℕ) (p : Parser A)
    → IsInside p.span
    → (b ≡ false → n ≤ p.span.length)
    → Follows p.span (fail_or_skip b n p).span
unfolding fail_or_skip
fail_or_skip-Follows b n p i h =
    if-cases (Past p.span) b _ _ (λ e. Follows-refl p.span) λ e. advance-Follows i (h e)

-- What is ahead of a span inside its text reaches as far as its length.
pub strlen-ahead : {s : ParserSpan} → IsInside s → strlen (ahead s) ≡ s.length
strlen-ahead {s} i =
    omega (arith, i.to_end, count_while-drop is_text s.text s.start (omega (arith, i.to_end)))

pub take_value-Follows :
    {A : Type 0} (p : Parser (Unit {0})) (r : A × ℕ)
    → IsInside p.span
    → r.1 ≤ strlen (ahead p.span)
    → Follows p.span (take_value p r).span
unfolding take_value advance
take_value-Follows p r i h =
    if-cases (Past p.span) (r.1 == 0) _ _ (λ e. Follows-refl p.span)
      (λ e. advance-Follows i (omega (arith, h, strlen-ahead i)))

pub or_false : (a b : Bool) → (a || b) ≡ false → (a ≡ false) × (b ≡ false)
or_false a b e = ground arith

pub run_any-Follows : (p : Parser (Unit {0})) → IsInside p.span → Follows p.span (run_any p).span
unfolding run_any
run_any-Follows p i = fail_or_skip-Follows _ 1 _ i λ e. ground arith

run_char-Follows : (p : Parser (Unit {0})) → IsInside p.span → Follows p.span (run_char p).span
unfolding run_char
run_char-Follows p i =
    if-cases (Past p.span) (p.span.length == 0) _ _ (λ e. Follows-refl p.span)
      λ e. advance-Follows i (ground arith)

run_eof-Follows : (p : Parser (Unit {0})) → IsInside p.span → Follows p.span (run_eof p).span
unfolding run_eof
run_eof-Follows p i =
    if-cases (Past p.span) (not (p.span.length == 0)) _ _ (λ e. Follows-refl p.span)
      λ e. Follows-refl p.span

pub run_ws-Follows : (p : Parser (Unit {0})) → IsInside p.span → Follows p.span (run_ws p).span
unfolding run_ws
run_ws-Follows p i =
    fail_or_skip-Follows _ 1 _ i
      λ e. let e' : (p.span.length == 0) ≡ false = (or_false _ _ e).0 in ground arith

pub run_match-Follows :
    (literal : List ℕ) (p : Parser (Unit {0}))
    → IsInside p.span
    → Follows p.span (run_match literal p).span
unfolding run_match
run_match-Follows literal p i =
    fail_or_skip-Follows _ (strlen literal) _ i
      λ e. let e' : ltb p.span.length (strlen literal) ≡ false = (or_false _ _ e).0 in ground arith

-- What a map relies on: a function given to it moves as the other maps do, and `strtof` reads
-- within its string.
unfoldable pub StaysInside : {A B : Type 0} → ParseMap A B → Type 0
StaysInside (lazy_map lzmap) = Moves lzmap
StaysInside (result_map resmap) = Unit
StaysInside (error_map cond) = Unit
StaysInside ignore = Unit
StaysInside (tuple_map kept kept_rest head rest) = StaysInside head × StaysInside rest
StaysInside (tuple_one head) = StaysInside head
StaysInside (not_map inner) = StaysInside inner
StaysInside (look_ahead inner) = StaysInside inner
StaysInside (chain kept left right) = StaysInside left × StaysInside right
StaysInside (combine kept resmap inner) = StaysInside inner
StaysInside (skip kept inner) = StaysInside inner
StaysInside (multiple min max default kept inner) = StaysInside inner
StaysInside (array_map n inner) = StaysInside inner
StaysInside (many min max kept inner) = StaysInside inner
StaysInside (or_else left right) = StaysInside left × StaysInside right
StaysInside (parse_string kept inner) = StaysInside inner
StaysInside (parse_float strtof) = (s : List ℕ) → (strtof s).1 ≤ strlen s
StaysInside _ = Unit

pub run-Moves : (fuel : ℕ) {A B : Type 0} (m : ParseMap A B) → StaysInside m → Moves (run fuel m)
unfolding run run_result_map run_error_map run_ignore run_multiple run_int run_float StaysInside
run-Moves fuel (lazy_map lzmap) h = h
run-Moves fuel (result_map resmap) h = λ p i. Follows-refl p.span
run-Moves fuel (error_map cond) h = λ p i.
    if-cases (Past p.span) (cond p.res) _ _ (λ e. Follows-refl p.span) (λ e. Follows-refl p.span)
run-Moves fuel ignore h = λ p i. Follows-refl p.span
run-Moves fuel (tuple_map kept kept_rest head rest) h =
    run_tuple_map-Moves kept kept_rest _ _ (run-Moves fuel head h.0) (run-Moves fuel rest h.1)
run-Moves fuel (tuple_one head) h = run_tuple_one-Moves _ (run-Moves fuel head h)
run-Moves fuel (not_map inner) h = run_not-Moves _ (run-Moves fuel inner h)
run-Moves fuel (look_ahead inner) h = run_look_ahead-Moves _ (run-Moves fuel inner h)
run-Moves fuel (chain kept left right) h =
    run_chain-Moves kept _ _ (run-Moves fuel left h.0) (run-Moves fuel right h.1)
run-Moves fuel (combine kept resmap inner) h =
    run_combine-Moves kept resmap _ (run-Moves fuel inner h)
run-Moves fuel (skip kept inner) h = run_skip-Moves kept _ (run-Moves fuel inner h)
run-Moves fuel (multiple min max default kept inner) h =
    multiple_loop-Moves fuel min max kept _ 0 _ (run-Moves fuel inner h)
run-Moves fuel (array_map n inner) h = array_loop-Moves n _ [] (run-Moves fuel inner h)
run-Moves fuel (many min max kept inner) h =
    many_loop-Moves fuel min max kept _ 0 (run-Moves fuel inner h)
run-Moves fuel (or_else left right) h =
    run_or-Moves _ _ (run-Moves fuel left h.0) (run-Moves fuel right h.1)
run-Moves fuel (parse_string kept inner) h = run_parse_string-Moves kept _ (run-Moves fuel inner h)
run-Moves fuel any h = run_any-Follows
run-Moves fuel char h = run_char-Follows
run-Moves fuel parse_eof h = run_eof-Follows
run-Moves fuel parse_ws h = run_ws-Follows
run-Moves fuel (match_text literal) h = run_match-Follows literal
run-Moves fuel parse_int h = λ p i. take_value-Follows p _ i (strtol-le-strlen (ahead p.span))
run-Moves fuel (parse_float strtof) h = λ p i. take_value-Follows p _ i (h (ahead p.span))

-- A map that returns leaves a span of the same text, not before the one it was given, which ends
-- where that one did, so its length neither grows nor wraps round. The hypotheses: the given span
-- is one inside its text, and the map stays inside wherever it calls a function it was given.
pub run-Follows :
    (fuel : ℕ) {A B : Type 0} (m : ParseMap A B) (p : Parser A) {q : Parser B}
    → StaysInside m
    → IsInside p.span
    → run fuel m p ≡ some q
    → Follows p.span q.span × IsInside q.span
run-Follows fuel m p {q} h i e =
    let f : Follows p.span q.span = After-some (Past p.span) (run-Moves fuel m h p i) e in
    (f, Follows-IsInside f i)
