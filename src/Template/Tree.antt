-- ===== src/Template/Tree.antt =====
-- The data of src/template.c. Text is a list of bytes that are not 0.
use corecommon.Common.{ℕ, zero, suc, Bool, List, Option, none, some, get_elem?}

-- `template_t` and `substitution_t`. A substitution with an insertion is a condition or a loop;
-- one without is the value of an argument.
mutual
  pub data Template : Type 0 where
    template : (str : List ℕ) → (skip max_args max_cond max_loop : ℕ) → Substitutions → Template

  pub data Substitutions : Type 0 where
    none_left : Substitutions
    then_sub : Substitution → Substitutions → Substitutions

  pub data Substitution : Type 0 where
    insertion : (idx offset : ℕ) → (inverted loop : Bool) → Template → Substitution
    argument : (idx offset : ℕ) → (noescape : Bool) → Substitution

-- The offset at which the text before a substitution ends.
abbrev pub offset_of : Substitution → ℕ
offset_of (insertion idx offset inverted loop t) = offset
offset_of (argument idx offset noescape) = offset

-- `template_args`: the conditions, the rows of each loop and the texts. A loop that
-- has run has freed its rows.
mutual
  pub data Args : Type 0 where
    args : (cond_args : List ℕ) → Loops → (sub_args : List (List ℕ)) → Args

  pub data Loops : Type 0 where
    no_loops : Loops
    loop_rows : Rows → Loops → Loops
    freed_rows : Loops → Loops

  pub data Rows : Type 0 where
    no_rows : Rows
    row : Args → Rows → Rows

-- `args->loop_args[i]`, `args->cond_args[i]` and `args->sub_args[i]`. An index out of range and rows
-- that are freed, whose reading C leaves undefined, have no result.
abbrev pub rows_at : Loops → ℕ → Option Rows
rows_at no_loops i = none
rows_at (loop_rows r ls) zero = some r
rows_at (freed_rows ls) zero = none
rows_at (loop_rows r ls) (suc i) = rows_at ls i
rows_at (freed_rows ls) (suc i) = rows_at ls i

abbrev pub cond_at : Args → ℕ → Option ℕ
cond_at (args cs ls ss) i = get_elem? cs i

abbrev pub loop_at : Args → ℕ → Option Rows
loop_at (args cs ls ss) i = rows_at ls i

abbrev pub sub_at : Args → ℕ → Option (List ℕ)
sub_at (args cs ls ss) i = get_elem? ss i

-- The rows of a loop and their vector are freed.
abbrev pub free_rows : Loops → ℕ → Loops
free_rows no_loops i = no_loops
free_rows (loop_rows r ls) zero = freed_rows ls
free_rows (freed_rows ls) zero = freed_rows ls
free_rows (loop_rows r ls) (suc i) = loop_rows r (free_rows ls i)
free_rows (freed_rows ls) (suc i) = freed_rows (free_rows ls i)

abbrev pub free_loop : Args → ℕ → Args
free_loop (args cs ls ss) i = args cs (free_rows ls i) ss

abbrev pub append_sub : Substitutions → Substitution → Substitutions
append_sub none_left s = then_sub s none_left
append_sub (then_sub t ts) s = then_sub t (append_sub ts s)
