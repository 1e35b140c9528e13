-- ===== src/Template/Parsed.antt =====
-- What `template_new` of src/template.c gives: it ends, and its templates are laid out.
use corecommon.Common.{
  ℕ, zero, suc, ◌+◌, ◌-◌, ◌^◌, ◌≤◌, ◌<◌, Bool, List, length, drop, length-drop, arith,
}
use corecommon.Template.Tree.{Template, template, insertion}
use corecommon.Template.Layout.{IsLaidOut, append_sub-LiesWithin}
use corecommon.Template.Parsing.{
  State, start, Action, finish, again, nest, overrun, step, to_template, close, Parse, parsed,
  overran, starved, parse_loop, template_new,
}
use corecommon.Template.Rounds.{IsOnCourse, Leaves, step-Leaves}

-- What a parse may give: a template that is laid out, with its end in the text, or a read past the
-- end of the text.
abbrev pub Parses : List ℕ → Parse → Type 0
Parses text (parsed (template str skip ma mc ml subs)) =
    IsLaidOut (template str skip ma mc ml subs) × (skip ≤ length text) × (length str ≤ length text)
Parses text overran = 0 ≤ 0
Parses text starved = 1 ≤ 0

close-IsOnCourse :
    (text : List ℕ) (st : State) (loop inverted : Bool) (idx : ℕ) (t : Template)
    → IsOnCourse text st
    → Parses (drop st.read text) (parsed t)
    → IsOnCourse text (close st loop inverted idx t)
      × (st.read ≤ (close st loop inverted idx t).read)
unfolding close
close-IsOnCourse text st loop inverted idx (template str skip ma mc ml subs) v (laid, le, _) = (
  record {
    inside = omega (arith, le, v.inside, length-drop st.read text);
    behind = omega (arith, v.behind);
    skipped = v.skipped;
    lie =
        append_sub-LiesWithin st.subs
          (insertion idx (length st.str) inverted loop (template str skip ma mc ml subs)) 0 v.lie
          laid;
  },
  omega arith,
)

-- The loop is right with this much fuel.
abbrev IsEnough : ℕ → Type 0
IsEnough fuel =
    (text : List ℕ) (st : State)
    → length text < 2 ^ 64
    → IsOnCourse text st
    → length text - st.read < fuel
    → Parses text (parse_loop fuel text st)

start-IsOnCourse : (text : List ℕ) → IsOnCourse text start
start-IsOnCourse text = record {
  inside = omega arith;
  behind = omega arith;
  skipped = omega arith;
  lie = omega arith;
}

-- The loop after a round, once the text of a condition is parsed.
abbrev proceed : ℕ → List ℕ → Action → Parse
proceed fuel text (finish st) = parsed (to_template st)
proceed fuel text (again st) = parse_loop fuel text st
proceed fuel text (nest st loop inverted idx) = elim (parse_loop fuel (drop st.read text) start) [
  | parsed t ↦ parse_loop fuel text (close st loop inverted idx t)
  | overran ↦ overran
  | starved ↦ starved
]
proceed fuel text overrun = overran

proceed-Parses :
    (fuel : ℕ) (text : List ℕ) (st : State) (a : Action)
    → IsEnough fuel
    → length text < 2 ^ 64
    → length text - st.read < suc fuel
    → Leaves text st a
    → Parses text (proceed fuel text a)
proceed-Parses fuel text st (finish st') ih small enough w =
    ((omega (arith, w.behind, w.inside), w.lie), w.skipped, omega (arith, w.behind, w.inside))
proceed-Parses fuel text st (again st') ih small enough (w, lt) =
    ih text st' small w (omega (arith, w.inside))
proceed-Parses fuel text st (nest st' loop inverted idx) ih small enough (w, lt) =
    go (parse_loop fuel (drop st'.read text) start) (
      ih (drop st'.read text) start (omega (arith, length-drop st'.read text))
        (start-IsOnCourse (drop st'.read text))
        (omega (arith, length-drop st'.read text, w.inside)))
  where
    go :
        (r : Parse)
        → Parses (drop st'.read text) r
        → Parses text (elim r [
          | parsed t ↦ parse_loop fuel text (close st' loop inverted idx t)
          | overran ↦ overran
          | starved ↦ starved
        ])
    go (parsed t) p =
        let (w', le) = close-IsOnCourse text st' loop inverted idx t w p in
        ih text (close st' loop inverted idx t) small w' (omega (arith, w'.inside))
    go overran p = p
    go starved p = absurd (omega (arith, p))
proceed-Parses fuel text st overrun ih small enough w = w

parse_loop-Parses : (fuel : ℕ) → IsEnough fuel
unfolding parse_loop
parse_loop-Parses zero text st small v enough = absurd (omega arith)
parse_loop-Parses (suc fuel) text st small v enough = unrolled (step text st) (
    proceed-Parses fuel text st (step text st) (parse_loop-Parses fuel) small enough
      (step-Leaves text st v))
  where
    unrolled :
        (a : Action)
        → Parses text (proceed fuel text a)
        → Parses text (elim a [
          | finish st' ↦ parsed (to_template st')
          | again st' ↦ parse_loop fuel text st'
          | nest st' loop inverted idx ↦ elim (parse_loop fuel (drop st'.read text) start) [
            | parsed t ↦ parse_loop fuel text (close st' loop inverted idx t)
            | overran ↦ overran
            | starved ↦ starved
          ]
          | overrun ↦ overran
        ])
    unrolled (finish st') p = p
    unrolled (again st') p = p
    unrolled (nest st' loop inverted idx) p = p
    unrolled overrun p = p

-- For every text below 2^64 bytes `template_new` ends: with a template whose substitutions stand
-- in the order of their offsets inside its text, or reading past the end of the text.
pub template_new-Parses : (text : List ℕ) → length text < 2 ^ 64 → Parses text (template_new text)
unfolding template_new
template_new-Parses text small =
    parse_loop-Parses (length text + 1) text start small (start-IsOnCourse text) (omega arith)
