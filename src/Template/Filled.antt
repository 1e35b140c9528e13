-- ===== src/Template/Filled.antt =====
-- `do_template_va` of src/template.c fills the buffer that it allocates.
use corecommon.Common.{
  Option, sym, ℕ, ◌+◌, ◌-◌, ◌^◌, ◌<◌, ◌≡◌, refl, ap, ◌∙◌, Bool, List, [], ◌∷◌, ◌++◌, none, some,
  length, set, replicate, leb, ltb, ◌&&◌, true, arith, if◌then◌else◌,
}
use mathlib.Core.Path.{subst}
use corecommon.Template.Tree.{Template, template, Args}
use corecommon.Template.Parsing.{template_new, parsed}
use corecommon.Template.Parsed.{Parses, template_new-Parses}
use corecommon.Template.Layout.{IsLaidOut}
use corecommon.Template.Rendering.{add_long, template_length, template_substitute}
use corecommon.Template.Written.{template_substitute-Written}
use corecommon.Template.Reads.{HasArgs, Keeps-refl}
use corecommon.Template.Filling.{VaArg, take_args, fill, do_template_va}

set-end : (out : List ℕ) (a b : ℕ) → set (out ++ a ∷ []) (length out) b ≡ out ++ b ∷ []
set-end [] a b = refl
set-end (x ∷ out) a b = ap (λ t. x ∷ t) (set-end out a b)

fill-exact :
    (size len : ℕ) (out : List ℕ)
    → len ≡ length out
    → size ≡ length out + 1
    → fill size len out ≡ some (out ++ 0 ∷ [])
unfolding fill
fill-exact size len out e f =
    rw (e, f)
      (ap
          (λ (b : Bool).
            if b
            then some (set (out ++ replicate (length out + 1 - length out) 0) (length out) 0)
            else none)
          fits
        ∙ (ap (λ n. some (set (out ++ replicate n 0) (length out) 0)) one
            ∙ ap some (set-end out 0 0)))
  where
    fits : (leb (length out) (length out + 1) && ltb (length out) (length out + 1)) ≡ true
    fits = ground arith

    one : length out + 1 - length out ≡ 1
    one = omega arith

-- What `template_substitute` writes.
abbrev pub text_of : Option (List ℕ × Args) → List ℕ
text_of none = []
text_of (some (out, after)) = out

unfoldable pub written : Template → Args → List ℕ
written t a = text_of (template_substitute t a)

written_eq :
    (t : Template) (a : Args) (out : List ℕ) (after : Args)
    → template_substitute t a ≡ some (out, after)
    → out ≡ written t a
unfolding written
written_eq t a out after e = sym (ap text_of e)

-- A laid out template.
do_template_va-template_substitute :
    (t : Template) (vs : List VaArg) (a : Args)
    → IsLaidOut t
    → take_args t vs ≡ some a
    → HasArgs t a []
    → length (written t a) + 1 < 2 ^ 64
    → (a' : Args) × (template_substitute t a ≡ some (written t a, a'))
      × (do_template_va t vs ≡ some (written t a ++ 0 ∷ []))
unfolding do_template_va
do_template_va-template_substitute t vs a laid taken has small =
    let w = template_substitute-Written t a a [] laid has (Keeps-refl a []) in
    let same : w.out ≡ written t a = written_eq t a w.out w.after w.ends in
    let small' : length w.out + 1 < 2 ^ 64 = omega (arith, ap length same, small) in
    let measured : template_length t 0 a ≡ some (length w.out) =
      w.measured 0 (omega arith) ∙ ap some (omega (arith, w.size, small')) in
    let filled : fill (add_long (length w.out) 1) (length w.out) w.out ≡ some (w.out ++ 0 ∷ []) =
      fill-exact _ _ w.out refl (omega (arith, small')) in
    (
      w.after,
      w.ends ∙ ap (λ o. some (o, w.after)) same,
      rw (taken, measured, w.ends) (filled ∙ ap (λ o. some (o ++ 0 ∷ [])) same),
    )

Parses-IsLaidOut : (text : List ℕ) (t : Template) → Parses text (parsed t) → IsLaidOut t
Parses-IsLaidOut text (template str skip ma mc ml subs) (laid, _, _) = laid

-- For every text below 2^64 bytes that `template_new` parses to a template, if the caller passes
-- the arguments of its three counts, those are all that the template names, no loop is named twice
-- (its rows are freed when it has run), and what `template_substitute` writes is below 2^64 - 1
-- bytes: `template_substitute` ends without reading a missing argument or freed rows, and
-- `do_template_va` writes inside the buffer that it allocates and returns what
-- `template_substitute` writes with a 0 behind it.
pub do_template_va-template_new :
    (text : List ℕ) (t : Template) (vs : List VaArg) (a : Args)
    → length text < 2 ^ 64
    → template_new text ≡ parsed t
    → take_args t vs ≡ some a
    → HasArgs t a []
    → length (written t a) + 1 < 2 ^ 64
    → (a' : Args) × (template_substitute t a ≡ some (written t a, a'))
      × (do_template_va t vs ≡ some (written t a ++ 0 ∷ []))
do_template_va-template_new text t vs a small parses taken has fits =
    do_template_va-template_substitute t vs a
      (Parses-IsLaidOut text t (subst (Parses text) parses (template_new-Parses text small))) taken
      has fits
