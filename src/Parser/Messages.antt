-- ===== src/Parser/Messages.antt =====
-- What `err_string` has to say after any map of src/parser.hpp.
use corecommon.Common.{
  ◌≢◌, ℕ, zero, suc, ◌≡◌, refl, Bool, not, List, [], Option, none, some, ltb, ◌==◌, if◌then◌else◌,
  if-cases, After, After->>=, After-if, After-imp, After-some, ◌>>=◌,
}
use corecommon.Parser.Span.{ParserSpan}
use corecommon.Parser.State.{
  ParseStatus, stat_none, stat_expected, stat_unexpected, stat_end_of_file, stat_error, stat_value,
  message_for, err_string, Parser, convert, with_res,
}
use corecommon.Parser.Steps.{
  swap_status, negate, run_any, run_char, run_eof, run_ws, run_match, run_int, run_float,
  fail_or_skip, take_value, run_result_map, run_ignore,
}
use corecommon.Parser.Maps.{
  Run, run_chain, run_combine, run_tuple_map, run_tuple_one, run_look_ahead, run_or,
  run_parse_string, many_loop, multiple_loop, run_multiple, array_loop, run_skip, run_not,
}
use corecommon.Parser.Syntax.{
  ParseMap, lazy_map, result_map, error_map, ignore, tuple_map, tuple_one, not_map, look_ahead,
  chain, combine, skip, multiple, array_map, many, or_else, parse_string, any, char, parse_eof,
  parse_ws, match_text, parse_int, parse_float, run,
}

-- What a message needs: a text where the status quotes one.
IsNamed : ParseStatus → Option (List ℕ) → Type 0
IsNamed stat_expected none = ⊥
IsNamed stat_unexpected none = ⊥
IsNamed stat_error expected = ⊥
IsNamed _ _ = Unit

abbrev Named : {A : Type 0} → Parser A → Type 0
Named p = IsNamed p.stat p.expected

-- A run after which there is a message, if there was one before it.
abbrev Names : {A B : Type 0} → Run A B → Type 0
Names {A} r = (p : Parser A) → Named p → After Named (r p)

named_message :
    (st : ParseStatus) (expected : Option (List ℕ)) (s : ParserSpan)
    → IsNamed st expected
    → message_for st expected s ≢ none
unfolding IsNamed message_for
named_message stat_expected none s h = absurd h
named_message stat_expected (some t) s h = λ e. cc
named_message stat_unexpected none s h = absurd h
named_message stat_unexpected (some t) s h = λ e. cc
named_message stat_error expected s h = absurd h
named_message stat_none expected s h = λ e. cc
named_message stat_end_of_file expected s h = λ e. cc
named_message stat_value expected s h = λ e. cc

message-IsNamed :
    (st : ParseStatus) (expected : Option (List ℕ)) (s : ParserSpan)
    → message_for st expected s ≢ none
    → IsNamed st expected
unfolding IsNamed message_for
message-IsNamed stat_expected none s h = absurd (h refl)
message-IsNamed stat_expected (some t) s h = tt
message-IsNamed stat_unexpected none s h = absurd (h refl)
message-IsNamed stat_unexpected (some t) s h = tt
message-IsNamed stat_error expected s h = absurd (h refl)
message-IsNamed stat_none expected s h = tt
message-IsNamed stat_end_of_file expected s h = tt
message-IsNamed stat_value expected s h = tt

module _ {A B : Type 0} where
  -- What runs next, unless a run failed.
  then-Named :
      (m : Option (Parser A)) (kept : A → B) (next : Run A B)
      → After Named m
      → Names next
      → After Named (m >>= λ q. if q.err then some (convert kept q) else next q)
  then-Named m kept next h n =
      After->>= Named Named m _ h λ q k. After-if Named q.err _ _ (λ e. k) (λ e. n q k)

  -- A round of a loop.
  round-Named :
      {C : Type 0} (p : Parser A) (inner : Run A B) (b : Bool) (kept : B → C) (done : C)
      (rest : Run B C)
      → Names inner
      → Named p
      → ((q : Parser B) → After Named (rest q))
      → After Named (
          inner p >>= λ q.
          if q.err then some (if b then convert kept q else with_res p done) else rest q)
  unfolding IsNamed
  round-Named p inner b kept done rest m h n =
      After->>= Named Named (inner p) _ (m p h)
        λ q k. After-if Named q.err _ _ (λ e. if-cases Named b _ _ (λ t. k) (λ t. tt)) (λ e. n q)

module _ {A B : Type 0} where
  many_loop-Names :
      (fuel min max : ℕ) (kept : B → Unit {0}) (inner : Run A B) (n : ℕ)
      → Names inner
      → Names (many_loop fuel min max kept inner n)
  unfolding many_loop IsNamed
  many_loop-Names zero min max kept inner n m p h = tt
  many_loop-Names (suc fuel) min max kept inner n m p h =
      After-if Named (ltb n max) _ _
        (λ e.
          round-Named p inner (ltb n min) kept _ _ m h
            λ q. many_loop-Names fuel min max kept inner _ m (record p { span = q.span }) h)
        (λ e. tt)

  multiple_loop-Names :
      (fuel min max : ℕ) (kept : B → List B) (inner : Run A B) (n : ℕ) (vec : List B)
      → Names inner
      → Names (multiple_loop fuel min max kept inner n vec)
  unfolding multiple_loop IsNamed
  multiple_loop-Names zero min max kept inner n vec m p h = tt
  multiple_loop-Names (suc fuel) min max kept inner n vec m p h =
      After-if Named (ltb n max) _ _
        (λ e.
          round-Named p inner (ltb n min) kept _ _ m h
            λ q. multiple_loop-Names fuel min max kept inner _ _ m (record p { span = q.span }) h)
        (λ e. tt)

  array_loop-Names :
      (n : ℕ) (inner : Run A B) (arr : List B) → Names inner → Names (array_loop n inner arr)
  unfolding array_loop IsNamed
  array_loop-Names zero inner arr m p h = tt
  array_loop-Names (suc n) inner arr m p h =
      After->>= Named Named (inner p) _ (m p h)
        λ q k. array_loop-Names n inner _ m (record p { span = q.span }) h

swap_status-IsNamed :
    (st : ParseStatus) (expected : Option (List ℕ))
    → IsNamed st expected
    → IsNamed (swap_status st) expected
unfolding IsNamed
swap_status-IsNamed stat_expected none h = h
swap_status-IsNamed stat_expected (some t) h = tt
swap_status-IsNamed stat_unexpected none h = h
swap_status-IsNamed stat_unexpected (some t) h = tt
swap_status-IsNamed stat_error expected h = h
swap_status-IsNamed stat_none expected h = h
swap_status-IsNamed stat_end_of_file expected h = h
swap_status-IsNamed stat_value expected h = h

fail_or_skip-Named :
    {A : Type 0} (b : Bool) (n : ℕ) (p : Parser A) → Named p → Named (fail_or_skip b n p)
unfolding fail_or_skip
fail_or_skip-Named b n p h = if-cases Named b _ _ (λ e. h) (λ e. h)

take_value-Named : {A : Type 0} (p : Parser (Unit {0})) (r : A × ℕ) → Named (take_value p r)
unfolding take_value IsNamed
take_value-Named p r = if-cases Named (r.1 == 0) _ _ (λ e. tt) (λ e. tt)

-- The maps without `ErrorMap`, whose functions leave a message.
unfoldable pub IsExplaining : {A B : Type 0} → ParseMap A B → Type 0
IsExplaining (lazy_map {A} {B} lzmap) =
    (p : Parser A) → err_string p ≢ none → After (λ (q : Parser B). err_string q ≢ none) (lzmap p)
IsExplaining (error_map cond) = ⊥
IsExplaining (tuple_map kept kept_rest head rest) = IsExplaining head × IsExplaining rest
IsExplaining (tuple_one head) = IsExplaining head
IsExplaining (not_map inner) = IsExplaining inner
IsExplaining (look_ahead inner) = IsExplaining inner
IsExplaining (chain kept left right) = IsExplaining left × IsExplaining right
IsExplaining (combine kept resmap inner) = IsExplaining inner
IsExplaining (skip kept inner) = IsExplaining inner
IsExplaining (multiple min max default kept inner) = IsExplaining inner
IsExplaining (array_map n inner) = IsExplaining inner
IsExplaining (many min max kept inner) = IsExplaining inner
IsExplaining (or_else left right) = IsExplaining left × IsExplaining right
IsExplaining (parse_string kept inner) = IsExplaining inner
IsExplaining _ = Unit

run-Names : (fuel : ℕ) {A B : Type 0} (m : ParseMap A B) → IsExplaining m → Names (run fuel m)
unfolding run run_result_map run_ignore run_chain run_combine run_tuple_map run_tuple_one
    run_look_ahead run_or run_parse_string run_multiple run_skip run_not negate run_any run_char
    run_eof run_ws run_match run_int run_float err_string IsExplaining IsNamed
run-Names fuel (lazy_map {A} {B} lzmap) x = λ p h.
    After-imp (λ (q : Parser B). err_string q ≢ none) Named (lzmap p)
      (λ q. message-IsNamed q.stat q.expected q.span)
      (x p (named_message p.stat p.expected p.span h))
run-Names fuel (result_map resmap) x = λ p h. tt
run-Names fuel (error_map cond) x = absurd x
run-Names fuel ignore x = λ p h. h
run-Names fuel (tuple_map kept kept_rest head rest) x = λ p h.
    then-Named (run fuel head p) kept _ (run-Names fuel head x.0 p h)
      λ q k. then-Named (run fuel rest q) kept_rest _ (run-Names fuel rest x.1 q k) λ u l. tt
run-Names fuel (tuple_one head) x =
    λ p h. then-Named (run fuel head p) (λ b. (b, tt)) _ (run-Names fuel head x p h) λ q k. tt
run-Names fuel (not_map inner) x = λ p h.
    After->>= Named Named (run fuel inner p) _ (run-Names fuel inner x p h)
      λ q k. swap_status-IsNamed q.stat q.expected k
run-Names fuel (look_ahead inner) x =
    λ p h. After->>= Named Named (run fuel inner p) _ (run-Names fuel inner x p h) λ q k. k
run-Names fuel (chain kept left right) x = λ p h.
    then-Named (run fuel left p) kept _ (run-Names fuel left x.0 p h) (run-Names fuel right x.1)
run-Names fuel (combine kept resmap inner) x =
    λ p h. then-Named (run fuel inner p) kept _ (run-Names fuel inner x p h) λ q k. tt
run-Names fuel (skip kept inner) x = λ p h.
    After->>= Named Named (run fuel inner (with_res p tt)) _
      (run-Names fuel inner x (with_res p tt) tt) λ q k. if-cases Named q.err _ _ (λ e. k) (λ e. tt)
run-Names fuel (multiple min max default kept inner) x =
    multiple_loop-Names fuel min max kept _ 0 _ (run-Names fuel inner x)
run-Names fuel (array_map n inner) x = array_loop-Names n _ [] (run-Names fuel inner x)
run-Names fuel (many min max kept inner) x =
    many_loop-Names fuel min max kept _ 0 (run-Names fuel inner x)
run-Names fuel (or_else left right) x = λ p h.
    After->>= Named Named (run fuel left p) _ (run-Names fuel left x.0 p h)
      λ q k. After-if Named q.err _ _ (λ e. run-Names fuel right x.1 p h) (λ e. k)
run-Names fuel (parse_string kept inner) x =
    λ p h. then-Named (run fuel inner p) kept _ (run-Names fuel inner x p h) λ q k. tt
run-Names fuel any x = λ p h. fail_or_skip-Named _ 1 _ tt
run-Names fuel char x = λ p h. if-cases Named (p.span.length == 0) _ _ (λ e. tt) (λ e. tt)
run-Names fuel parse_eof x =
    λ p h. if-cases Named (not (p.span.length == 0)) _ _ (λ e. tt) (λ e. tt)
run-Names fuel parse_ws x = λ p h. fail_or_skip-Named _ 1 _ tt
run-Names fuel (match_text literal) x = λ p h. fail_or_skip-Named _ _ _ tt
run-Names fuel parse_int x = λ p h. take_value-Named p _
run-Names fuel (parse_float strtof) x = λ p h. take_value-Named p _

-- `err_string` has a message after a run if it had one before: no status that quotes a text is left
-- without one. The hypothesis: the map has no `ErrorMap`, the one map after which there is no
-- message, and the functions it was given leave a message.
pub run-err_string :
    (fuel : ℕ) {A B : Type 0} (m : ParseMap A B) (p : Parser A) {q : Parser B}
    → IsExplaining m
    → err_string p ≢ none
    → run fuel m p ≡ some q
    → err_string q ≢ none
unfolding err_string
run-err_string fuel m p {q} x h e =
    named_message q.stat q.expected q.span
      (After-some Named (run-Names fuel m x p (message-IsNamed p.stat p.expected p.span h)) e)
