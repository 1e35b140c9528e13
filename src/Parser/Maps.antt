-- ===== src/Parser/Maps.antt =====
-- The maps of src/parser.hpp that run other maps: each `run` method, on what the inner maps do, and
-- the expression templates as data.
use corecommon.Common.{
  ℕ, zero, suc, ◌+◌, ◌-◌, ◌%◌, ◌^◌, List, [], ◌∷◌, ◌++◌, Option, none, some, ltb, if◌then◌else◌,
  ◌>>=◌, take, drop, replicate,
}
use corecommon.Parser.State.{Parser, convert, with_res}
use corecommon.Parser.Steps.{negate}

-- A run that returns, or that has not come to an end on the fuel of its loops.
abbrev pub Run : Type 0 → Type 0 → Type 0
Run A B = Parser A → Option (Parser B)

-- What follows a run: the parser is converted where the run failed.
abbrev pub unless_err : {A B : Type 0} → (kept : A → B) → Run A B → Run A B
unless_err kept next q = let rest = next q in if q.err then some (convert kept q) else rest

module _ {A B C : Type 0} where
  unfoldable pub run_chain : (kept : B → C) → Run A B → Run B C → Run A C
  run_chain kept left right p = left p >>= unless_err kept right

  unfoldable pub run_combine : (kept : B → C) → (A → B → C) → Run A B → Run A C
  run_combine kept resmap inner p =
      inner p >>= unless_err kept λ q. some (with_res q (resmap p.res q.res))

  -- `TupleMap<Head, Rest...>`, and `TupleMap<Head>` below.
  unfoldable pub run_tuple_map :
      (kept : B → B × C) → (kept_rest : C → B × C) → Run A B → Run B C → Run A (B × C)
  run_tuple_map kept kept_rest head rest p = head p >>= λ h.
      let tail = rest h >>= unless_err kept_rest λ r. some (with_res r (h.res, r.res)) in
      if h.err then some (convert kept h) else tail

abbrev pub count_up : ℕ → ℕ
count_up i = (i + 1) % 2 ^ 32

module _ {A B : Type 0} where
  unfoldable pub run_tuple_one : Run A B → Run A (B × Unit {0})
  run_tuple_one head p = head p >>= unless_err (λ b. (b, tt)) λ h. some (with_res h (h.res, tt))

  unfoldable pub run_look_ahead : Run A B → Run A B
  run_look_ahead inner p = inner p >>= λ q. some (record q { span = p.span })

  unfoldable pub run_or : Run A B → Run A B → Run A B
  run_or left right p = let other = right p in left p >>= λ q. if q.err then other else some q

  unfoldable pub run_parse_string : (kept : B → List ℕ) → Run A B → Run A (List ℕ)
  run_parse_string kept inner p =
      inner p
      >>= unless_err kept
          λ q. some (with_res q (take (q.span.text - p.span.text) (drop p.span.text p.span.start)))

  -- The loop of `Many` from the count i, an `unsigned`; `max` is a `size_t`.
  unfoldable pub many_loop :
      ℕ → (min max : ℕ) → (kept : B → Unit {0}) → Run A B → ℕ → Run A (Unit {0})
  many_loop zero min max kept inner i p = none
  many_loop (suc fuel) min max kept inner i p =
      let more = inner p >>= λ q.
      let rest = many_loop fuel min max kept inner (count_up i) (record p { span = q.span }) in
      if q.err then some (if ltb i min then convert kept q else with_res p tt) else rest in
      if ltb i max then more else some (with_res p tt)

  -- The loop of `Multiple`, which collects the results in `vec`.
  unfoldable pub multiple_loop :
      ℕ → (min max : ℕ) → (kept : B → List B) → Run A B → ℕ → List B → Run A (List B)
  multiple_loop zero min max kept inner i vec p = none
  multiple_loop (suc fuel) min max kept inner i vec p =
      let more = inner p >>= λ q.
      let rest =
        multiple_loop fuel min max kept inner (count_up i) (vec ++ q.res ∷ [])
          (record p { span = q.span }) in
      if q.err then some (if ltb i min then convert kept q else with_res p vec) else rest in
      if ltb i max then more else some (with_res p vec)

  -- `vec(min)`: the vector starts with min default elements.
  unfoldable pub run_multiple :
      ℕ → (min max : ℕ) → B → (kept : B → List B) → Run A B → Run A (List B)
  run_multiple fuel min max default kept inner p =
      multiple_loop fuel min max kept inner 0 (replicate min default) p

  -- The loop of `ArrayMap` over the elements that are left; errors are not looked at.
  unfoldable pub array_loop : ℕ → Run A B → List B → Run A (List B)
  array_loop zero inner arr p = some (with_res p arr)
  array_loop (suc n) inner arr p =
      inner p >>= λ q. array_loop n inner (arr ++ q.res ∷ []) (record p { span = q.span })

unfoldable pub run_skip : {A : Type 0} → (kept : Unit {0} → A) → Run (Unit {0}) (Unit {0}) → Run A A
run_skip kept skip p =
    skip (with_res p tt) >>= λ q. some (if q.err then convert kept q else with_res q p.res)

unfoldable pub run_not : Run (Unit {0}) (Unit {0}) → Run (Unit {0}) (Unit {0})
run_not inner p = inner p >>= λ q. some (negate q)
