-- ===== src/Template/Reads.antt =====
-- What a template of src/template.c reads of its arguments.
use corecommon.Common.{
  ℕ, zero, suc, true, false, List, [], ◌∷◌, some, In, here, there, ◌≡◌, ◌≢◌, refl, ap, ◌∙◌,
}
use corecommon.Template.Tree.{
  Template, template, Substitutions, none_left, then_sub, Substitution, insertion, argument, Args,
  args, Loops, no_loops, loop_rows, freed_rows, Rows, no_rows, row, rows_at, cond_at, loop_at,
  sub_at, free_rows, free_loop,
}

-- The loops of a template, those in its conditions included, on top of other loops.
abbrev mutual
  pub loops_of : Template → List ℕ → List ℕ
  loops_of (template str skip ma mc ml subs) used = loops_of_all subs used

  pub loops_of_all : Substitutions → List ℕ → List ℕ
  loops_of_all none_left used = used
  loops_of_all (then_sub s ss) used = loops_of_all ss (loops_of_sub s used)

  pub loops_of_sub : Substitution → List ℕ → List ℕ
  loops_of_sub (insertion idx offset inverted true t) used = idx ∷ used
  loops_of_sub (insertion idx offset inverted false t) used = loops_of t used
  loops_of_sub (argument idx offset noescape) used = used

abbrev pub AllRows : (Args → Type 0) → Rows → Type 0
AllRows P no_rows = Unit
AllRows P (row r rs) = P r × AllRows P rs

-- Each argument that the template names is there, and no loop is named twice or is one of `used`.
abbrev mutual
  pub HasArgs : Template → Args → List ℕ → Type 0
  HasArgs (template str skip ma mc ml subs) a used = HasAllArgs subs a used

  pub HasAllArgs : Substitutions → Args → List ℕ → Type 0
  HasAllArgs none_left a used = Unit
  HasAllArgs (then_sub s ss) a used = HasSubArgs s a used × HasAllArgs ss a (loops_of_sub s used)

  pub HasSubArgs : Substitution → Args → List ℕ → Type 0
  HasSubArgs (insertion idx offset inverted true t) a used =
      (¬ (In idx used))
      × (rows : Rows) × (loop_at a idx ≡ some rows)
      × AllRows (λ r. HasArgs t r []) rows
  HasSubArgs (insertion idx offset inverted false t) a used =
      (cond : ℕ) × (cond_at a idx ≡ some cond) × HasArgs t a used
  HasSubArgs (argument idx offset noescape) a used = (arg : List ℕ) × (sub_at a idx ≡ some arg)

-- The arguments are what they were, but for the rows of some loops.
pub record Keeps (before after : Args) (used : List ℕ) : Type 0 where
  pub conds : (i : ℕ) → cond_at after i ≡ cond_at before i
  pub subs : (i : ℕ) → sub_at after i ≡ sub_at before i
  pub loops : (i : ℕ) → ¬ (In i used) → loop_at after i ≡ loop_at before i

pub Keeps-refl : (a : Args) (used : List ℕ) → Keeps a a used
Keeps-refl a used = record { conds = λ i. refl; subs = λ i. refl; loops = λ i _. refl }

rows_at-free_rows : (ls : Loops) (i j : ℕ) → i ≢ j → rows_at (free_rows ls i) j ≡ rows_at ls j
rows_at-free_rows no_loops i j ne = refl
rows_at-free_rows (loop_rows r ls) zero zero ne = absurd (ne refl)
rows_at-free_rows (loop_rows r ls) zero (suc j) ne = refl
rows_at-free_rows (loop_rows r ls) (suc i) zero ne = refl
rows_at-free_rows (loop_rows r ls) (suc i) (suc j) ne =
    rows_at-free_rows ls i j (λ e. ne (ap suc e))
rows_at-free_rows (freed_rows ls) zero zero ne = refl
rows_at-free_rows (freed_rows ls) zero (suc j) ne = refl
rows_at-free_rows (freed_rows ls) (suc i) zero ne = refl
rows_at-free_rows (freed_rows ls) (suc i) (suc j) ne = rows_at-free_rows ls i j (λ e. ne (ap suc e))

loop_at-free_loop : (a : Args) (i j : ℕ) → i ≢ j → loop_at (free_loop a i) j ≡ loop_at a j
loop_at-free_loop (args cs ls ss) i j ne = rows_at-free_rows ls i j ne

cond_at-free_loop : (a : Args) (i j : ℕ) → cond_at (free_loop a i) j ≡ cond_at a j
cond_at-free_loop (args cs ls ss) i j = refl

sub_at-free_loop : (a : Args) (i j : ℕ) → sub_at (free_loop a i) j ≡ sub_at a j
sub_at-free_loop (args cs ls ss) i j = refl

pub Keeps-free_loop :
    (a b : Args) (used : List ℕ) (i : ℕ) → Keeps a b used → Keeps a (free_loop b i) (i ∷ used)
Keeps-free_loop a b used i k = record {
  conds = λ j. cond_at-free_loop b i j ∙ k.conds j;
  subs = λ j. sub_at-free_loop b i j ∙ k.subs j;
  loops = λ j out.
      loop_at-free_loop b i j (λ e. out (here e)) ∙ k.loops j (λ within. out (there within));
}

-- More loops are allowed to be freed.
pub Keeps-more :
    (a b : Args) (used more : List ℕ)
    → ((i : ℕ) → In i used → In i more)
    → Keeps a b used
    → Keeps a b more
Keeps-more a b used more grow k = record {
  conds = k.conds;
  subs = k.subs;
  loops = λ i out. k.loops i (λ within. out (grow i within));
}

mutual
  pub In-loops_of : (t : Template) (used : List ℕ) (i : ℕ) → In i used → In i (loops_of t used)
  In-loops_of (template str skip ma mc ml subs) used i h = In-loops_of_all subs used i h

  In-loops_of_all :
      (ss : Substitutions) (used : List ℕ) (i : ℕ) → In i used → In i (loops_of_all ss used)
  In-loops_of_all none_left used i h = h
  In-loops_of_all (then_sub s ss) used i h =
      In-loops_of_all ss (loops_of_sub s used) i (In-loops_of_sub s used i h)

  In-loops_of_sub :
      (s : Substitution) (used : List ℕ) (i : ℕ) → In i used → In i (loops_of_sub s used)
  In-loops_of_sub (insertion idx offset inverted true t) used i h = there h
  In-loops_of_sub (insertion idx offset inverted false t) used i h = In-loops_of t used i h
  In-loops_of_sub (argument idx offset noescape) used i h = h
