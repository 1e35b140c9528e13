-- ===== src/Template/Parsing.antt =====
-- `template_new` of src/template.c. The read cursor is an index into the text; the write cursor is
-- the length of what was written.
use corecommon.Common.{
  ℕ, zero, suc, ◌+◌, ◌-◌, ◌%◌, ◌^◌, Bool, ◌&&◌, ◌||◌, List, [], ◌∷◌, ◌++◌, length, drop, get_or,
  ltb, leb, ◌==◌, if◌then◌else◌, max,
}
use corecommon.Template.Tree.{
  Template, template, Substitutions, none_left, insertion, argument, append_sub,
}

-- `*(data+i)`; the byte behind the text is 0.
abbrev pub char_at : List ℕ → ℕ → ℕ
char_at text i = get_or text i 0

-- `*read_cursor - '0'` of a signed `char`, as an `unsigned long`.
unfoldable pub index_of : ℕ → ℕ
index_of c = if ltb c 128 then (c + 2 ^ 64 - b'0') % 2 ^ 64 else (c + 2 ^ 64 - 256 - b'0') % 2 ^ 64

-- `if (idx >= m) m = idx+1;`
unfoldable pub raise : ℕ → ℕ → ℕ
raise idx m = if leb m idx then (idx + 1) % 2 ^ 64 else m

-- The variables of the loop.
pub record State : Type 0 where
  pub read : ℕ
  pub str : List ℕ
  pub skip : ℕ
  pub max_args : ℕ
  pub max_cond : ℕ
  pub max_loop : ℕ
  pub subs : Substitutions

abbrev pub start : State
start = record {
  read = 0;
  str = [];
  skip = 0;
  max_args = 0;
  max_cond = 0;
  max_loop = 0;
  subs = none_left;
}

-- What one round of the loop leads to: its end, another round, a condition whose text starts at the
-- read cursor, or a read past the end of the text.
pub data Action : Type 0 where
  finish : State → Action
  again : State → Action
  nest : State → (loop inverted : Bool) → (idx : ℕ) → Action
  overrun : Action

-- `%` and what follows it, when that is neither `%` nor `!`.
unfoldable pub step_argument : List ℕ → State → Action
step_argument text st =
    let noescape = char_at text (st.read + 1) == b'#' in
    let at = if noescape then st.read + 2 else st.read + 1 in
    let idx = index_of (char_at text at) in
    if char_at text at == 0
    then overrun
    else again (record st {
      read = at + 1;
      max_args = raise idx st.max_args;
      subs = append_sub st.subs (argument idx (length st.str) noescape);
    })

-- `%!`, up to the text of the condition.
unfoldable pub step_condition : List ℕ → State → Action
step_condition text st =
    let loop = char_at text (st.read + 2) == b'*' in
    let inverted = char_at text (st.read + 2) == b'!' in
    let at = if loop || inverted then st.read + 3 else st.read + 2 in
    let idx = index_of (char_at text at) in
    let is_loop = loop && leb st.max_loop idx in
    if char_at text at == 0
    then overrun
    else nest
        (record st {
          read = at + 1;
          max_loop = if is_loop then (idx + 1) % 2 ^ 64 else st.max_loop;
          max_cond = if is_loop then st.max_cond else raise idx st.max_cond;
        })
        loop inverted idx

unfoldable pub step : List ℕ → State → Action
step text st =
    let c = char_at text st.read in
    let c1 = char_at text (st.read + 1) in
    if c == 0
    then finish st
    else if c == b'!' && c1 == b'%'
    then if ltb 0 st.read && char_at text (st.read - 1) == b'!'
      then again (record st { read = st.read + 2; str = st.str ++ b'%' ∷ [] })
      else finish (record st { skip = st.read + 2 })
    else if c == b'%'
    then if c1 == b'%'
      then again (record st { read = st.read + 2; str = st.str ++ b'%' ∷ [] })
      else if c1 == b'!'
      then step_condition text st
      else step_argument text st
    else again (record st { read = st.read + 1; str = st.str ++ c ∷ [] })

abbrev pub to_template : State → Template
to_template st = template st.str st.skip st.max_args st.max_cond st.max_loop st.subs

-- The rest of the round of a condition, once its text is parsed.
unfoldable pub close : State → Bool → Bool → ℕ → Template → State
close st loop inverted idx (template str skip ma mc ml subs) = record st {
  read = st.read + skip;
  max_args = max st.max_args ma;
  max_cond = max st.max_cond mc;
  max_loop = max st.max_loop ml;
  subs =
      append_sub st.subs
        (insertion idx (length st.str) inverted loop (template str skip ma mc ml subs));
}

pub data Parse : Type 0 where
  parsed : Template → Parse
  overran : Parse
  starved : Parse

-- The loop; a round that meets a condition calls `template_new` on the rest of the text.
unfoldable pub parse_loop : ℕ → List ℕ → State → Parse
parse_loop zero text st = starved
parse_loop (suc fuel) text st = elim (step text st) [
  | finish st' ↦ parsed (to_template st')
  | again st' ↦ parse_loop fuel text st'
  | nest st' loop inverted idx ↦ elim (parse_loop fuel (drop st'.read text) start) [
    | parsed t ↦ parse_loop fuel text (close st' loop inverted idx t)
    | overran ↦ overran
    | starved ↦ starved
  ]
  | overrun ↦ overran
]

unfoldable pub template_new : List ℕ → Parse
template_new text = parse_loop (length text + 1) text start
