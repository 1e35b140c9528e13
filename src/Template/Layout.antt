-- ===== src/Template/Layout.antt =====
-- What the renderer of src/template.c relies on: the substitutions of a template stand in the order
-- of their offsets, inside its text.
use corecommon.Common.{ℕ, ◌^◌, ◌≤◌, ◌<◌, length, arith}
use corecommon.Template.Tree.{
  Template, template, Substitutions, none_left, then_sub, Substitution, insertion, argument,
  append_sub, offset_of,
}

abbrev mutual
  pub IsLaidOut : Template → Type 0
  IsLaidOut (template str skip ma mc ml subs) =
      (length str < 2 ^ 64) × LiesWithin subs 0 (length str)

  -- The substitutions lie between two offsets.
  pub LiesWithin : Substitutions → ℕ → ℕ → Type 0
  LiesWithin none_left lo hi = lo ≤ hi
  LiesWithin (then_sub s ss) lo hi =
      (lo ≤ offset_of s) × HasLayout s × LiesWithin ss (offset_of s) hi

  pub HasLayout : Substitution → Type 0
  HasLayout (insertion idx offset inverted loop t) = IsLaidOut t
  HasLayout (argument idx offset noescape) = idx ≤ idx

pub LiesWithin-le : (ss : Substitutions) (lo hi : ℕ) → LiesWithin ss lo hi → lo ≤ hi
LiesWithin-le none_left lo hi h = h
LiesWithin-le (then_sub s ss) lo hi (le, _, rest) =
    omega (arith, le, LiesWithin-le ss (offset_of s) hi rest)

-- The text grows behind the substitutions.
pub LiesWithin-mono :
    (ss : Substitutions) (lo hi top : ℕ) → LiesWithin ss lo hi → hi ≤ top → LiesWithin ss lo top
LiesWithin-mono none_left lo hi top h le = omega arith
LiesWithin-mono (then_sub s ss) lo hi top (first, here, rest) le =
    (first, here, LiesWithin-mono ss (offset_of s) hi top rest le)

-- A substitution at the end of the text comes last.
pub append_sub-LiesWithin :
    (ss : Substitutions) (s : Substitution) (lo : ℕ)
    → LiesWithin ss lo (offset_of s)
    → HasLayout s
    → LiesWithin (append_sub ss s) lo (offset_of s)
append_sub-LiesWithin none_left s lo h here = (h, here, omega arith)
append_sub-LiesWithin (then_sub t ts) s lo (first, h, rest) here =
    (first, h, append_sub-LiesWithin ts s (offset_of t) rest here)
