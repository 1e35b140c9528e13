-- ===== src/Template/Length.antt =====
-- `template_substitute` of src/template.c writes what `template_length` has measured, where every
-- argument is there.
use corecommon.Common.{
  Option, some, In, ℕ, ◌+◌, ◌^◌, ◌<◌, ◌≡◌, refl, ap, ◌∙◌, Bool, true, false, List, [], ◌∷◌, ◌++◌,
  length, length-append, arith,
}
use corecommon.Template.Tree.{
  Template, insertion, argument, Args, Rows, no_rows, row, cond_at, loop_at, sub_at, free_loop,
}
use corecommon.Template.Reads.{loops_of, AllRows, Keeps, Keeps-free_loop, Keeps-more, In-loops_of}
use corecommon.Template.Rendering.{
  add_long, escaped, escaped_length, measure_text, write_text, skips, length_rows, template_length,
  length_sub, write_rows, template_substitute, write_sub,
}

write_text-cons :
    (c : ℕ) (cs : List ℕ) → length (write_text (c ∷ cs)) ≡ escaped_length c + length (write_text cs)
unfolding write_text escaped escaped_length
write_text-cons c cs = ground arith

pub measure_text-write_text :
    (len : ℕ) (cs : List ℕ)
    → len < 2 ^ 64
    → measure_text len cs ≡ add_long len (length (write_text cs))
unfolding measure_text write_text
measure_text-write_text len [] h = omega arith
measure_text-write_text len (c ∷ cs) h =
    measure_text-write_text (add_long len (escaped_length c)) cs (omega arith)
    ∙ omega (arith, write_text-cons c cs)

-- A run that writes `base` bytes of the text and what `measure` adds, and frees only loops of `used`.
pub record Written (before : Args) (used : List ℕ) (run : Option (List ℕ × Args)) (base : ℕ)
    (measure : ℕ → Option ℕ) : Type 0 where
  pub out : List ℕ
  pub after : Args
  pub ends : run ≡ some (out, after)
  pub keeps : Keeps before after used
  pub extra : ℕ
  pub size : length out ≡ base + extra
  pub measured : (len : ℕ) → len < 2 ^ 64 → measure len ≡ some (add_long len extra)

pub Written-argument :
    (before after : Args) (used : List ℕ) (idx offset : ℕ) (noescape : Bool) (arg : List ℕ)
    → sub_at before idx ≡ some arg
    → Keeps before after used
    → Written before used
        (write_sub (argument idx offset noescape) after)
        0
        (λ len. length_sub (argument idx offset noescape) len before)
unfolding write_sub length_sub
Written-argument before after used idx offset true arg e k = record {
  out = arg;
  after = after;
  ends = rw (k.subs idx ∙ e) refl;
  keeps = k;
  extra = length arg;
  size = omega arith;
  measured = λ len lt. rw e refl;
}
Written-argument before after used idx offset false arg e k = record {
  out = write_text arg;
  after = after;
  ends = rw (k.subs idx ∙ e) refl;
  keeps = k;
  extra = length (write_text arg);
  size = omega arith;
  measured = λ len lt. rw e (ap some (measure_text-write_text len arg lt));
}

-- The rows of a loop, where each is written and measured right.
pub record WrittenRows (run : Option (List ℕ)) (measure : ℕ → Option ℕ) : Type 0 where
  pub out : List ℕ
  pub ends : run ≡ some out
  pub measured : (len : ℕ) → len < 2 ^ 64 → measure len ≡ some (add_long len (length out))

pub write_rows-WrittenRows :
    (write : Args → Option (List ℕ × Args)) (measure : ℕ → Args → Option ℕ) (P : Args → Type 0)
    (used : List ℕ) (rs : Rows)
    → ((a : Args) → P a → Written a used (write a) 0 (λ len. measure len a))
    → AllRows P rs
    → WrittenRows (write_rows write rs) (length_rows measure rs)
unfolding write_rows length_rows
write_rows-WrittenRows write measure P used no_rows each all = record {
  out = [];
  ends = refl;
  measured = λ len lt. ap some (omega arith);
}
write_rows-WrittenRows write measure P used (row r rs) each (here, all) =
    let w = each r here in
    let ws = write_rows-WrittenRows write measure P used rs each all in
    record {
      out = w.out ++ ws.out;
      ends = rw (w.ends, ws.ends) refl;
      measured = λ len lt. rw (w.measured len lt) (
          ws.measured (add_long len w.extra) (omega arith)
          ∙ ap some (omega (arith, length-append w.out ws.out, w.size)));
    }

pub Written-loop :
    (before after : Args) (used : List ℕ) (idx offset : ℕ) (inverted : Bool) (t : Template)
    (rows : Rows)
    → loop_at after idx ≡ some rows
    → loop_at before idx ≡ some rows
    → Keeps before after used
    → WrittenRows (write_rows (template_substitute t) rows) (length_rows (template_length t) rows)
    → Written before
        (idx ∷ used)
        (write_sub (insertion idx offset inverted true t) after)
        0
        (λ len. length_sub (insertion idx offset inverted true t) len before)
unfolding write_sub length_sub
Written-loop before after used idx offset inverted t rows e f k w = record {
  out = w.out;
  after = free_loop after idx;
  ends = rw (e, w.ends) refl;
  keeps = Keeps-free_loop before after used idx k;
  extra = length w.out;
  size = omega arith;
  measured = λ len lt. rw f (w.measured len lt);
}

Written-skipped :
    (skipped : Bool) (before after : Args) (used more : List ℕ) (run : Option (List ℕ × Args))
    (measure : ℕ → Option ℕ)
    → ((i : ℕ) → In i used → In i more)
    → Keeps before after used
    → Written before more run 0 measure
    → Written before more
        (elim skipped [ true ↦ some ([], after) | false ↦ run ])
        0
        (λ len. elim skipped [ true ↦ some len | false ↦ measure len ])
Written-skipped true before after used more run measure grow k w = record {
  out = [];
  after = after;
  ends = refl;
  keeps = Keeps-more before after used more grow k;
  extra = 0;
  size = refl;
  measured = λ len lt. ap some (omega arith);
}
Written-skipped false before after used more run measure grow k w = w

pub Written-condition :
    (before after : Args) (used : List ℕ) (idx offset : ℕ) (inverted : Bool) (t : Template)
    (cond : ℕ)
    → cond_at before idx ≡ some cond
    → Keeps before after used
    → Written before
        (loops_of t used)
        (template_substitute t after)
        0
        (λ len. template_length t len before)
    → Written before
        (loops_of t used)
        (write_sub (insertion idx offset inverted false t) after)
        0
        (λ len. length_sub (insertion idx offset inverted false t) len before)
unfolding write_sub length_sub
Written-condition before after used idx offset inverted t cond e k w =
    rw (e, k.conds idx ∙ e)
      (Written-skipped (skips inverted cond) before after used (loops_of t used) _ _
        (In-loops_of t used) k w)
