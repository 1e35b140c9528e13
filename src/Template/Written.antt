-- ===== src/Template/Written.antt =====
-- `template_substitute` of src/template.c on a whole template: it ends, and `template_length` has
-- measured what it writes.
use corecommon.Common.{
  some, ℕ, ◌+◌, ◌-◌, ◌%◌, ◌^◌, ◌<◌, ◌≡◌, refl, ap, ◌∙◌, true, false, List, [], ◌++◌, length, take,
  drop, length-append, length-take, length-drop, arith,
}
use corecommon.Template.Tree.{
  Template, template, Substitutions, none_left, then_sub, Substitution, insertion, argument, Args,
  offset_of,
}
use corecommon.Template.Layout.{IsLaidOut, LiesWithin, LiesWithin-le, HasLayout}
use corecommon.Template.Reads.{
  loops_of, loops_of_all, loops_of_sub, HasArgs, HasAllArgs, HasSubArgs, Keeps, Keeps-refl,
}
use corecommon.Template.Rendering.{
  add_long, template_length, length_subs, length_sub, template_substitute, write_subs, write_sub,
}
use corecommon.Template.Length.{
  Written, Written-argument, write_rows-WrittenRows, Written-loop, Written-condition,
}

-- A substitution and those behind it.
Written-then_sub :
    (s : Substitution) (ss : Substitutions) (str : List ℕ) (at : ℕ) (before after : Args)
    (used more : List ℕ)
    → length str < 2 ^ 64
    → LiesWithin (then_sub s ss) at (length str)
    → (w : Written before used (write_sub s after) 0 (λ len. length_sub s len before))
    → Written before more
        (write_subs ss str (offset_of s) w.after)
        (length str - offset_of s)
        (λ len. length_subs ss len before)
    → Written before more
        (write_subs (then_sub s ss) str at after)
        (length str - at)
        (λ len. length_subs (then_sub s ss) len before)
unfolding write_subs length_subs
Written-then_sub s ss str at before after used more small (le, _, rest) w ws =
    let o = offset_of s in
    let top = LiesWithin-le ss o (length str) rest in
    let gap = (o + 2 ^ 64 - at) % 2 ^ 64 in
    let moved : at + gap ≡ o = omega arith in
    record {
      out = take gap (drop at str) ++ (w.out ++ ws.out);
      after = ws.after;
      ends = rw (w.ends, moved, ws.ends) refl;
      keeps = ws.keeps;
      extra = w.extra + ws.extra;
      size =
          length-append (take gap (drop at str)) (w.out ++ ws.out)
          ∙ omega (
            arith,
            length-take gap (drop at str),
            length-drop at str,
            length-append w.out ws.out,
            w.size,
            ws.size,
            top,
          );
      measured = λ len lt.
          rw (w.measured len lt)
            (ws.measured (add_long len w.extra) (omega arith) ∙ ap some (omega arith));
    }

mutual
  unfolding template_substitute template_length write_subs length_subs

  -- A laid out template whose arguments are there.
  pub template_substitute-Written :
      (t : Template) (before after : Args) (used : List ℕ)
      → IsLaidOut t
      → HasArgs t before used
      → Keeps before after used
      → Written before
          (loops_of t used)
          (template_substitute t after)
          0
          (λ len. template_length t len before)
  template_substitute-Written (template str skip ma mc ml subs) before after used (small, h) has k =
      let w = write_subs-Written subs str 0 before after used small h has k in
      record {
        out = w.out;
        after = w.after;
        ends = w.ends;
        keeps = w.keeps;
        extra = length w.out;
        size = omega arith;
        measured = λ len lt.
            w.measured (add_long len (length str)) (omega arith) ∙ ap some (omega (arith, w.size));
      }

  write_subs-Written :
      (ss : Substitutions) (str : List ℕ) (at : ℕ) (before after : Args) (used : List ℕ)
      → length str < 2 ^ 64
      → LiesWithin ss at (length str)
      → HasAllArgs ss before used
      → Keeps before after used
      → Written before
          (loops_of_all ss used)
          (write_subs ss str at after)
          (length str - at)
          (λ len. length_subs ss len before)
  write_subs-Written none_left str at before after used small h has k = record {
    out = take (length str - at) (drop at str);
    after = after;
    ends = refl;
    keeps = k;
    extra = 0;
    size = omega (arith, length-take (length str - at) (drop at str), length-drop at str);
    measured = λ len lt. ap some (omega arith);
  }
  write_subs-Written (then_sub s ss) str at before after used small h has k =
      let w = write_sub-Written s before after used h.1 has.0 k in
      Written-then_sub s ss str at before after (loops_of_sub s used)
        (loops_of_all ss (loops_of_sub s used)) small h w
        (write_subs-Written ss str (offset_of s) before w.after (loops_of_sub s used) small h.2
          has.1 w.keeps)

  write_sub-Written :
      (s : Substitution) (before after : Args) (used : List ℕ)
      → HasLayout s
      → HasSubArgs s before used
      → Keeps before after used
      → Written before (loops_of_sub s used) (write_sub s after) 0 (λ len. length_sub s len before)
  write_sub-Written (insertion idx offset inverted true t) before after used h (fresh, rows, e, all)
        k =
      Written-loop before after used idx offset inverted t rows (k.loops idx fresh ∙ e) e k (
        write_rows-WrittenRows (template_substitute t) (template_length t) (λ r. HasArgs t r [])
          (loops_of t []) rows
          (λ r has. template_substitute-Written t r r [] h has (Keeps-refl r [])) all)
  write_sub-Written (insertion idx offset inverted false t) before after used h (cond, e, has) k =
      Written-condition before after used idx offset inverted t cond e k
        (template_substitute-Written t before after used h has k)
  write_sub-Written (argument idx offset noescape) before after used h (arg, e) k =
      Written-argument before after used idx offset noescape arg e k
