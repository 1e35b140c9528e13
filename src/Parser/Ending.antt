-- ===== src/Parser/Ending.antt =====
-- The loops of src/parser.hpp end where each round reads something.
use corecommon.Common.{
  ℕ, zero, suc, ◌≤◌, ◌<◌, ◌≡◌, List, [], Option, some, arith, ltb, if◌then◌else◌, After-both, Gives,
  Gives->>=, Gives-if, Gives-After, Gives-some, Gives-Returns, Returns, ◌>>=◌,
}
use corecommon.Parser.State.{Parser, with_res}
use corecommon.Parser.Maps.{
  Run, run_chain, run_combine, run_tuple_map, run_tuple_one, run_look_ahead, run_or,
  run_parse_string, many_loop, multiple_loop, run_multiple, array_loop, run_skip, run_not,
}
use corecommon.Parser.Syntax.{
  ParseMap, lazy_map, result_map, error_map, ignore, tuple_map, tuple_one, not_map, look_ahead,
  chain, combine, skip, multiple, array_map, many, or_else, parse_string, any, char, parse_eof,
  parse_ws, match_text, parse_int, parse_float, run,
}
use corecommon.Parser.Texts.{IsInside, Follows-IsInside}
use corecommon.Parser.Moves.{Past, Moves}
use corecommon.Parser.Moves.{Past, Moves}
use corecommon.Parser.Advances.{StaysInside, run-Moves}
use corecommon.Parser.Reads.{Less, Eats, shorter}
use corecommon.Parser.Reading.{IsReading, run-Eats}

-- A map whose runs end: the body of a loop reads something in each round, and a function that was
-- given returns.
unfoldable pub IsEnding : {A B : Type 0} → ParseMap A B → Type 0
IsEnding (lazy_map {A} lzmap) = (p : Parser A) → IsInside p.span → Gives (Past p.span) (lzmap p)
IsEnding (tuple_map kept kept_rest head rest) = IsEnding head × IsEnding rest
IsEnding (tuple_one head) = IsEnding head
IsEnding (not_map inner) = IsEnding inner
IsEnding (look_ahead inner) = IsEnding inner
IsEnding (chain kept left right) = IsEnding left × IsEnding right
IsEnding (combine kept resmap inner) = IsEnding inner
IsEnding (skip kept inner) = IsEnding inner
IsEnding (multiple min max default kept inner) = IsEnding inner × IsReading inner
IsEnding (array_map n inner) = IsEnding inner
IsEnding (many min max kept inner) = IsEnding inner × IsReading inner
IsEnding (or_else left right) = IsEnding left × IsEnding right
IsEnding (parse_string kept inner) = IsEnding inner
IsEnding _ = Unit

-- A run that returns wherever less than n bytes are left.
abbrev pub Ends : {A B : Type 0} → ℕ → Run A B → Type 0
Ends {A} n r = (p : Parser A) → IsInside p.span → p.span.length < n → Gives (Past p.span) (r p)

module _ {A B : Type 0} where
  ends_then :
      {C : Type 0} (n : ℕ) (p : Parser A) (m : Option (Parser B))
      (next : Parser B → Option (Parser C))
      → IsInside p.span
      → p.span.length < n
      → Gives (Past p.span) m
      → ((q : Parser B) → IsInside q.span → q.span.length < n → Returns (next q))
      → Returns (m >>= next)
  ends_then n p m next i l h k =
      Gives->>= (Past p.span) (λ _. Unit) m next h
        λ q f. k q (Follows-IsInside f i) (omega (arith, shorter f, l))

  ends :
      (n : ℕ) (r : Run A B)
      → Moves r
      → ((p : Parser A) → IsInside p.span → p.span.length < n → Returns (r p))
      → Ends n r
  ends n r m g p i l = Gives-After (λ _. Unit) (Past p.span) (r p) (g p i l) (m p i)

  -- A round of a loop, whose rest runs on a shorter text.
  round_ends :
      {C : Type 0} (p : Parser A) (inner : Run A B) (stop : Parser B → Parser C)
      (rest : Parser B → Option (Parser C))
      → IsInside p.span
      → Moves inner
      → Eats inner
      → Gives (Past p.span) (inner p)
      → ((q : Parser B) → IsInside q.span → q.span.length < p.span.length → Returns (rest q))
      → Returns (inner p >>= λ q. if q.err then some (stop q) else rest q)
  round_ends p inner stop rest i m e g k =
      Gives->>= (λ q. Past p.span q × Less p.span q) (λ _. Unit) (inner p) _
        (Gives-After (Past p.span) _ (inner p) g
          (After-both (Past p.span) (Less p.span) (inner p) (m p i) (e p i)))
        λ q f. Gives-if (λ _. Unit) q.err _ _ (λ u. tt) λ u. k q (Follows-IsInside f.0 i) (f.1 u)

  many_loop-Returns :
      (fuel min max : ℕ) (kept : B → Unit {0}) (inner : Run A B) (n j : ℕ)
      → fuel ≤ n
      → Moves inner
      → Eats inner
      → Ends n inner
      → (p : Parser A) → IsInside p.span
      → p.span.length < fuel
      → Returns (many_loop fuel min max kept inner j p)
  unfolding many_loop
  many_loop-Returns zero min max kept inner n j le m e g p i l = absurd (omega arith)
  many_loop-Returns (suc fuel) min max kept inner n j le m e g p i l =
      Gives-if (λ _. Unit) (ltb j max) _ _
        (λ t. round_ends p inner _ _ i m e (g p i (omega arith)) λ q i' l'.
          many_loop-Returns fuel min max kept inner n _ (omega arith) m e g
            (record p { span = q.span }) i' (omega arith))
        (λ t. tt)

  multiple_loop-Returns :
      (fuel min max : ℕ) (kept : B → List B) (inner : Run A B) (n j : ℕ) (vec : List B)
      → fuel ≤ n
      → Moves inner
      → Eats inner
      → Ends n inner
      → (p : Parser A) → IsInside p.span
      → p.span.length < fuel
      → Returns (multiple_loop fuel min max kept inner j vec p)
  unfolding multiple_loop
  multiple_loop-Returns zero min max kept inner n j vec le m e g p i l = absurd (omega arith)
  multiple_loop-Returns (suc fuel) min max kept inner n j vec le m e g p i l =
      Gives-if (λ _. Unit) (ltb j max) _ _
        (λ t. round_ends p inner _ _ i m e (g p i (omega arith)) λ q i' l'.
          multiple_loop-Returns fuel min max kept inner n _ _ (omega arith) m e g
            (record p { span = q.span }) i' (omega arith))
        (λ t. tt)

  array_loop-Returns :
      (n k : ℕ) (inner : Run A B) (arr : List B)
      → Ends n inner
      → (p : Parser A) → IsInside p.span
      → p.span.length < n
      → Returns (array_loop k inner arr p)
  unfolding array_loop
  array_loop-Returns n zero inner arr g p i l = tt
  array_loop-Returns n (suc k) inner arr g p i l =
      ends_then n p (inner p) _ i l (g p i l)
        λ q. array_loop-Returns n k inner _ g (record p { span = q.span })

run-Returns :
    (fuel : ℕ) {A B : Type 0} (m : ParseMap A B) (p : Parser A)
    → StaysInside m
    → IsEnding m
    → IsInside p.span
    → p.span.length < fuel
    → Returns (run fuel m p)
unfolding run run_chain run_combine run_tuple_map run_tuple_one run_look_ahead run_or
    run_parse_string run_multiple run_skip run_not StaysInside IsEnding
run-Returns fuel (lazy_map lzmap) p h e i l = Gives-Returns (Past p.span) (lzmap p) (e p i)
run-Returns fuel (result_map resmap) p h e i l = tt
run-Returns fuel (error_map cond) p h e i l = tt
run-Returns fuel ignore p h e i l = tt
run-Returns fuel (tuple_map kept kept_rest head rest) p h e i l =
    ends_then fuel p (run fuel head p) _ i l
      (ends fuel _ (run-Moves fuel head h.0) (λ q. run-Returns fuel head q h.0 e.0) p i l)
      λ q i' l'.
        Gives-if (λ _. Unit) q.err _ _ (λ t. tt)
          λ t.
            Gives->>= (λ _. Unit) (λ _. Unit) (run fuel rest q) _
              (run-Returns fuel rest q h.1 e.1 i' l')
              λ u k. Gives-if (λ _. Unit) u.err _ _ (λ t. tt) (λ t. tt)
run-Returns fuel (tuple_one head) p h e i l =
    Gives->>= (λ _. Unit) (λ _. Unit) (run fuel head p) _ (run-Returns fuel head p h e i l)
      λ u k. Gives-if (λ _. Unit) u.err _ _ (λ t. tt) (λ t. tt)
run-Returns fuel (not_map inner) p h e i l =
    Gives->>= (λ _. Unit) (λ _. Unit) (run fuel inner p) _ (run-Returns fuel inner p h e i l)
      λ u k. tt
run-Returns fuel (look_ahead inner) p h e i l =
    Gives->>= (λ _. Unit) (λ _. Unit) (run fuel inner p) _ (run-Returns fuel inner p h e i l)
      λ u k. tt
run-Returns fuel (chain kept left right) p h e i l =
    ends_then fuel p (run fuel left p) _ i l
      (ends fuel _ (run-Moves fuel left h.0) (λ q. run-Returns fuel left q h.0 e.0) p i l)
      λ q i' l'.
        Gives-if (λ _. Unit) q.err _ _ (λ t. tt) (λ t. run-Returns fuel right q h.1 e.1 i' l')
run-Returns fuel (combine kept resmap inner) p h e i l =
    Gives->>= (λ _. Unit) (λ _. Unit) (run fuel inner p) _ (run-Returns fuel inner p h e i l)
      λ u k. Gives-if (λ _. Unit) u.err _ _ (λ t. tt) (λ t. tt)
run-Returns fuel (skip kept inner) p h e i l =
    Gives->>= (λ _. Unit) (λ _. Unit) (run fuel inner (with_res p tt)) _
      (run-Returns fuel inner (with_res p tt) h e i l) λ u k. tt
run-Returns fuel (multiple min max default kept inner) p h e i l =
    multiple_loop-Returns fuel min max kept _ fuel 0 _ (omega arith) (run-Moves fuel inner h)
      (run-Eats fuel inner h e.1)
      (ends fuel _ (run-Moves fuel inner h) (λ q. run-Returns fuel inner q h e.0)) p i l
run-Returns fuel (array_map n inner) p h e i l =
    array_loop-Returns fuel n _ []
      (ends fuel _ (run-Moves fuel inner h) (λ q. run-Returns fuel inner q h e)) p i l
run-Returns fuel (many min max kept inner) p h e i l =
    many_loop-Returns fuel min max kept _ fuel 0 (omega arith) (run-Moves fuel inner h)
      (run-Eats fuel inner h e.1)
      (ends fuel _ (run-Moves fuel inner h) (λ q. run-Returns fuel inner q h e.0)) p i l
run-Returns fuel (or_else left right) p h e i l =
    Gives->>= (λ _. Unit) (λ _. Unit) (run fuel left p) _ (run-Returns fuel left p h.0 e.0 i l)
      λ u k. Gives-if (λ _. Unit) u.err _ _ (λ t. run-Returns fuel right p h.1 e.1 i l) (λ t. tt)
run-Returns fuel (parse_string kept inner) p h e i l =
    Gives->>= (λ _. Unit) (λ _. Unit) (run fuel inner p) _ (run-Returns fuel inner p h e i l)
      λ u k. Gives-if (λ _. Unit) u.err _ _ (λ t. tt) (λ t. tt)
run-Returns fuel any p h e i l = tt
run-Returns fuel char p h e i l = tt
run-Returns fuel parse_eof p h e i l = tt
run-Returns fuel parse_ws p h e i l = tt
run-Returns fuel (match_text literal) p h e i l = tt
run-Returns fuel parse_int p h e i l = tt
run-Returns fuel (parse_float strtof) p h e i l = tt

-- Parsing ends: with more rounds for each loop than bytes are left, a map has a result. The
-- hypotheses, on the form of the map: the body of each loop in it reads something wherever it
-- succeeds, and the functions it was given return, stay in the text and never go back.
pub run-ends :
    (fuel : ℕ) {A B : Type 0} (m : ParseMap A B) (p : Parser A)
    → StaysInside m
    → IsEnding m
    → IsInside p.span
    → p.span.length < fuel
    → (q : Parser B) × (run fuel m p ≡ some q)
run-ends fuel m p h e i l = Gives-some (λ _. Unit) (run fuel m p) (run-Returns fuel m p h e i l)
