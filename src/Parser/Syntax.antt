-- ===== src/Parser/Syntax.antt =====
-- The expression templates of src/parser.hpp as data, and the parser that each of them is.
use corecommon.Common.{ℕ, ◌-◌, ◌^◌, Bool, List, [], some, ℤ}
use corecommon.Parser.Steps.{
  run_any, run_char, run_eof, run_ws, run_match, run_int, run_float, run_result_map, run_ignore,
  run_error_map,
}
use corecommon.Parser.Maps.{
  Run, run_chain, run_combine, run_tuple_map, run_tuple_one, run_look_ahead, run_or,
  run_parse_string, many_loop, run_multiple, array_loop, run_skip, run_not,
}

-- A class derived from `ParseMap<From, To>`, with its fields. Where a class converts a failed parser
-- of another type, `kept` is what the conversion makes of the result.
pub data ParseMap : Type 0 → Type 0 → Type 1 where
  lazy_map : {A B : Type 0} → (lzmap : Run A B) → ParseMap A B
  result_map : {A B : Type 0} → (resmap : A → B) → ParseMap A B
  error_map : {A : Type 0} → (cond : A → Bool) → ParseMap A A
  ignore : {A : Type 0} → ParseMap A (Unit {0})
  tuple_map :
      {A B C : Type 0}
      → (kept : B → B × C) → (kept_rest : C → B × C) → ParseMap A B
      → ParseMap B C
      → ParseMap A (B × C)
  tuple_one : {A B : Type 0} → ParseMap A B → ParseMap A (B × Unit {0})
  not_map : ParseMap (Unit {0}) (Unit {0}) → ParseMap (Unit {0}) (Unit {0})
  look_ahead : {A B : Type 0} → ParseMap A B → ParseMap A B
  chain : {A B C : Type 0} → (kept : B → C) → ParseMap A B → ParseMap B C → ParseMap A C
  combine : {A B C : Type 0} → (kept : B → C) → (resmap : A → B → C) → ParseMap A B → ParseMap A C
  skip : {A : Type 0} → (kept : Unit {0} → A) → ParseMap (Unit {0}) (Unit {0}) → ParseMap A A
  multiple :
      {A B : Type 0}
      → (min max : ℕ) → (default : B) → (kept : B → List B) → ParseMap A B
      → ParseMap A (List B)
  array_map : {A B : Type 0} → (n : ℕ) → ParseMap A B → ParseMap A (List B)
  many :
      {A B : Type 0} → (min max : ℕ) → (kept : B → Unit {0}) → ParseMap A B → ParseMap A (Unit {0})
  or_else : {A B : Type 0} → ParseMap A B → ParseMap A B → ParseMap A B
  parse_string : {A B : Type 0} → (kept : B → List ℕ) → ParseMap A B → ParseMap A (List ℕ)
  any : ParseMap (Unit {0}) (Unit {0})
  char : ParseMap (Unit {0}) ℕ
  parse_eof : ParseMap (Unit {0}) (Unit {0})
  parse_ws : ParseMap (Unit {0}) (Unit {0})
  match_text : (literal : List ℕ) → ParseMap (Unit {0}) (Unit {0})
  parse_int : ParseMap (Unit {0}) ℤ
  parse_float : {F : Type 0} → (strtof : List ℕ → F × ℕ) → ParseMap (Unit {0}) F

-- `operator()`, where each loop has `fuel` rounds.
unfoldable pub run : ℕ → {A B : Type 0} → ParseMap A B → Run A B
run fuel (lazy_map lzmap) p = lzmap p
run fuel (result_map resmap) p = some (run_result_map resmap p)
run fuel (error_map cond) p = some (run_error_map cond p)
run fuel ignore p = some (run_ignore p)
run fuel (tuple_map kept kept_rest head rest) p =
    run_tuple_map kept kept_rest (run fuel head) (run fuel rest) p
run fuel (tuple_one head) p = run_tuple_one (run fuel head) p
run fuel (not_map inner) p = run_not (run fuel inner) p
run fuel (look_ahead inner) p = run_look_ahead (run fuel inner) p
run fuel (chain kept left right) p = run_chain kept (run fuel left) (run fuel right) p
run fuel (combine kept resmap inner) p = run_combine kept resmap (run fuel inner) p
run fuel (skip kept inner) p = run_skip kept (run fuel inner) p
run fuel (multiple min max default kept inner) p =
    run_multiple fuel min max default kept (run fuel inner) p
run fuel (array_map n inner) p = array_loop n (run fuel inner) [] p
run fuel (many min max kept inner) p = many_loop fuel min max kept (run fuel inner) 0 p
run fuel (or_else left right) p = run_or (run fuel left) (run fuel right) p
run fuel (parse_string kept inner) p = run_parse_string kept (run fuel inner) p
run fuel any p = some (run_any p)
run fuel char p = some (run_char p)
run fuel parse_eof p = some (run_eof p)
run fuel parse_ws p = some (run_ws p)
run fuel (match_text literal) p = some (run_match literal p)
run fuel parse_int p = some (run_int p)
run fuel (parse_float strtof) p = some (run_float strtof p)

-- The methods of `ParseMap` that build maps.
abbrev pub skip_after :
    {A B : Type 0}
    → (kept : Unit {0} → B) → ParseMap A B
    → ParseMap (Unit {0}) (Unit {0})
    → ParseMap A B
skip_after kept m after = chain (λ b. b) m (skip kept after)

abbrev pub maybe : {A B : Type 0} → (kept : B → Unit {0}) → ParseMap A B → ParseMap A (Unit {0})
maybe kept m = many 0 1 kept m

abbrev pub no_limit : ℕ
no_limit = 2 ^ 64 - 1

abbrev pub separated :
    {A B : Type 0}
    → (kept : Unit {0} → A) → (from_result : B → A) → (to_result : A → B)
    → (sep : ParseMap (Unit {0}) (Unit {0})) → ParseMap A B
    → ParseMap A (Unit {0})
separated kept from_result to_result sep m =
    chain (λ _. tt) (combine from_result (λ a b. a) m)
      (many 0 no_limit (λ _. tt) (chain to_result (skip kept sep) m))
