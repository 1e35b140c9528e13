-- ===== src/Template/Tests.antt =====
-- Runs of the templates of src/template.c.
use corecommon.Common.{
  none, In, ◌-◌, ◌^◌, ℕ, ◌≡◌, refl, ap, List, [], ◌∷◌, ◌++◌, true, false, some, arith, length,
}
use Prim.Native.Char.{code}
use Prim.Native.String.{String}
use corecommon.Template.Tree.{
  Template, template, none_left, then_sub, insertion, argument, Args, args, no_loops, loop_rows,
  freed_rows, no_rows, row,
}
use corecommon.Template.Parsing.{
  template_new, parsed, overran, parse_loop, step, step_condition, step_argument, close, raise,
  index_of,
}
use corecommon.Template.Rendering.{
  template_substitute, template_length, write_rows, length_rows, write_text, escaped, measure_text,
  escaped_length,
}
use corecommon.Template.Filling.{
  VaArg, int_arg, rows_arg, text_arg, take_cond_args, take_loop_args, take_sub_args, take_args,
  do_template_va,
}
use corecommon.Template.Parsed.{Parses, template_new-Parses}
use corecommon.Template.Filled.{written, text_of, do_template_va-template_new}
use corecommon.Template.Reads.{HasArgs}
use corecommon.Template.Escape.{no_markup, write_text-no_markup}
use corecommon.Template.Quote.{template_new-quote}

In-nil : {i : ℕ} → ¬ (In i [])
In-nil h = elim h [ ]

abbrev codes : String → List ℕ
codes String.[] = []
codes (String.◌∷◌ c s) = code c ∷ codes s

-- A template with a percent sign, an argument, a raw argument, two conditions and a loop.
abbrev source_text : List ℕ
source_text = codes "100%% %0 %#0 %!0yes!% %!!0no!% %!*0[%0]!%."

abbrev given : List VaArg
given =
    int_arg 1
    ∷ rows_arg
        (row (args [] no_loops (codes "a" ∷ [])) (row (args [] no_loops (codes "<" ∷ [])) no_rows))
    ∷ text_arg (codes "x&y")
    ∷ []

abbrev expected : List ℕ
expected = codes "100% x&amp;y x&y yes  [a][&lt;]."

abbrev tree : Template
tree = template (codes "100%     .") 0 1 1 1 (
    then_sub (argument 0 5 false) (
      then_sub (argument 0 6 true) (
        then_sub (insertion 0 7 false false (template (codes "yes") 5 0 0 0 none_left)) (
          then_sub (insertion 0 8 true false (template (codes "no") 4 0 0 0 none_left)) (
            then_sub
              (insertion 0 9 false true
                (template (codes "[]") 6 1 0 0 (then_sub (argument 0 1 false) none_left)))
              none_left)))))

abbrev taken : Args
taken =
    args (1 ∷ [])
      (loop_rows
        (row (args [] no_loops (codes "a" ∷ [])) (row (args [] no_loops (codes "<" ∷ [])) no_rows))
        no_loops)
      (codes "x&y" ∷ [])

parses : template_new source_text ≡ parsed tree
unfolding template_new parse_loop step step_condition step_argument close raise index_of
parses = refl

-- The text of a condition that is not closed is read a second time behind it.
unclosed :
    template_new (codes "%!0ab")
    ≡ parsed (
        template (codes "ab") 0 0 1 0 (
          then_sub (insertion 0 0 false false (template (codes "ab") 0 0 0 0 none_left)) none_left))
unfolding template_new parse_loop step step_condition step_argument close raise index_of
unclosed = refl

-- A second loop of a lower index asks for a condition that the template does not have.
second_loop :
    template_new (codes "%!*1!%%!*0!%")
    ≡ parsed (
        template [] 0 0 1 2 (
          then_sub
            (insertion 1 0 false true (template [] 2 0 0 0 none_left))
            (then_sub (insertion 0 0 false true (template [] 2 0 0 0 none_left)) none_left)))
unfolding template_new parse_loop step step_condition step_argument close raise index_of
second_loop = refl

-- A percent sign at the end.
cut_off : template_new (codes "a%") ≡ overran
unfolding template_new parse_loop step step_condition step_argument
cut_off = refl

measured : template_length tree 0 taken ≡ some (length expected)
unfolding template_length length_rows measure_text escaped_length
measured = refl

abbrev freed : Args
freed = args (1 ∷ []) (freed_rows no_loops) (codes "x&y" ∷ [])

renders : template_substitute tree taken ≡ some (expected, freed)
unfolding template_substitute write_rows write_text escaped
renders = refl

-- A byte below '0' names an argument that no caller passes.
abbrev wrong_index : Template
wrong_index = template [] 0 0 0 0 (then_sub (argument (2 ^ 64 - 1) 0 false) none_left)

parses_wrong_index : template_new (codes "%/") ≡ parsed wrong_index
unfolding template_new parse_loop step step_condition step_argument close raise index_of
parses_wrong_index = refl

reads_outside : do_template_va wrong_index [] ≡ none
unfolding do_template_va take_args take_cond_args take_loop_args take_sub_args template_length
reads_outside = refl

-- A loop that is named twice reads rows that are freed.
abbrev twice : Template
twice = template [] 0 0 1 1 (
    then_sub (insertion 0 0 false true (template [] 2 0 0 0 none_left))
      (then_sub (insertion 0 0 false true (template [] 2 0 0 0 none_left)) none_left))

parses_twice : template_new (codes "%!*0!%%!*0!%") ≡ parsed twice
unfolding template_new parse_loop step step_condition step_argument close raise index_of
parses_twice = refl

reads_freed : template_substitute twice (args [] (loop_rows no_rows no_loops) []) ≡ none
unfolding template_substitute write_rows
reads_freed = refl

takes : take_args tree given ≡ some taken
unfolding take_args take_cond_args take_loop_args take_sub_args
takes = refl

template_new-Parses_example : Parses source_text (template_new source_text)
template_new-Parses_example = template_new-Parses source_text (omega arith)

taken-HasArgs : HasArgs tree taken []
taken-HasArgs = (
  (codes "x&y", refl),
  (
    (codes "x&y", refl),
    (
      (1, refl, tt),
      (
        (1, refl, tt),
        (
          (
            (λ h. In-nil h),
            row (args [] no_loops (codes "a" ∷ []))
                (row (args [] no_loops (codes "<" ∷ [])) no_rows),
            refl,
            ((((codes "a", refl), tt), (((codes "<", refl), tt), tt))),
          ),
          tt,
        ),
      ),
    ),
  ),
)

do_template_va-template_new_example :
    (a' : Args) × (template_substitute tree taken ≡ some (written tree taken, a'))
    × (do_template_va tree given ≡ some (written tree taken ++ 0 ∷ []))
unfolding written
do_template_va-template_new_example =
    do_template_va-template_new source_text tree given taken (omega arith) parses takes
      taken-HasArgs (omega (arith, ap length (ap text_of renders)))

write_text-no_markup_example : no_markup (write_text (codes "<a href='x'>")) ≡ true
write_text-no_markup_example = write_text-no_markup (codes "<a href='x'>")

template_new-quote_example :
    template_new (codes "a%%!!%") ≡ parsed (template (codes "a%!%") 0 0 0 0 none_left)
template_new-quote_example =
    template_new-quote (codes "a%!%")
      (omega arith, (omega arith, (omega arith, (omega arith, omega arith))))
