-- ===== src/Template/Filling.antt =====
-- `do_template_va` of src/template.c: it takes the arguments, measures, and fills a new buffer.
use corecommon.Common.{
  ℕ, zero, suc, ◌-◌, List, [], ◌∷◌, ◌++◌, Option, none, some, length, set, replicate, leb, ltb,
  ◌&&◌, if◌then◌else◌, ◌>>=◌,
}
use corecommon.Template.Tree.{Template, template, Args, args, Loops, no_loops, loop_rows, Rows}
use corecommon.Template.Rendering.{add_long, template_length, template_substitute}

-- What the caller passes. `va_arg` of another type, or of none, has no result.
pub data VaArg : Type 0 where
  int_arg : ℕ → VaArg
  rows_arg : Rows → VaArg
  text_arg : List ℕ → VaArg

unfoldable pub take_cond_args : ℕ → List VaArg → Option (List ℕ × List VaArg)
take_cond_args (suc n) (int_arg i ∷ vs) = do (is, rest) ← take_cond_args n vs; some (i ∷ is, rest)
take_cond_args zero vs = some ([], vs)
take_cond_args _ _ = none

unfoldable pub take_loop_args : ℕ → List VaArg → Option (Loops × List VaArg)
take_loop_args (suc n) (rows_arg r ∷ vs) = do
  (rs, rest) ← take_loop_args n vs
  some (loop_rows r rs, rest)
take_loop_args zero vs = some (no_loops, vs)
take_loop_args _ _ = none

unfoldable pub take_sub_args : ℕ → List VaArg → Option (List (List ℕ) × List VaArg)
take_sub_args (suc n) (text_arg t ∷ vs) = do (ts, rest) ← take_sub_args n vs; some (t ∷ ts, rest)
take_sub_args zero vs = some ([], vs)
take_sub_args _ _ = none

unfoldable pub take_args : Template → List VaArg → Option Args
take_args (template str skip max_args max_cond max_loop subs) vs = do
  (cond_args, vs1) ← take_cond_args max_cond vs
  (loop_args, vs2) ← take_loop_args max_loop vs1
  (sub_args, vs3) ← take_sub_args max_args vs2
  some (args cond_args loop_args sub_args)

-- A write past the end of the buffer has no result.
unfoldable pub fill : (size len : ℕ) → List ℕ → Option (List ℕ)
fill size len out =
    if leb (length out) size && ltb len size
    then some (set (out ++ replicate (size - length out) 0) len 0)
    else none

unfoldable pub do_template_va : Template → List VaArg → Option (List ℕ)
do_template_va t vs = do
  a ← take_args t vs
  len ← template_length t 0 a
  (out, freed) ← template_substitute t a
  fill (add_long len 1) len out
