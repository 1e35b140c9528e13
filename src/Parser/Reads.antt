-- ===== src/Parser/Reads.antt =====
-- Which maps of src/parser.hpp read at least one byte wherever they succeed.
use corecommon.Common.{
  ℕ, ◌≤◌, ◌<◌, ◌≡◌, sym, Bool, false, List, Option, some, arith, ◌==◌, if◌then◌else◌, if-cases, inl,
  inr, ◌∙◌, After, After->>=, After-if, After-imp, After-both, ◌>>=◌,
}
use corecommon.Parser.Span.{strlen, ParserSpan, advance, ahead}
use corecommon.Parser.State.{Parser, convert, with_res}
use corecommon.Parser.Steps.{fail_or_skip, take_value}
use corecommon.Parser.Maps.{
  Run, run_chain, run_combine, run_tuple_map, run_tuple_one, run_or, run_parse_string, run_skip,
}
use corecommon.Parser.Texts.{advance-length, IsInside, Follows, Follows-refl, Follows-IsInside}
use corecommon.Parser.Moves.{Past, Moves}
use mathlib.Core.Bool.{true≢false}
use mathlib.Core.Logic.{◌⊎◌}
use corecommon.Parser.Moves.{then_moves, unless_err-Moves, Past, Moves}
use corecommon.Parser.Advances.{strlen-ahead}

-- A later span where a parser has not failed.
abbrev pub Less : {A : Type 0} → ParserSpan → Parser A → Type 0
Less s q = (q.err ≡ false) → q.span.length < s.length

-- A run that reads something or fails.
abbrev pub Eats : {A B : Type 0} → Run A B → Type 0
Eats {A} r = (p : Parser A) → IsInside p.span → After (Less p.span) (r p)

pub shorter : {s t : ParserSpan} → Follows s t → t.length ≤ s.length
shorter f = omega (arith, f.onward, f.same_end)

-- Something is read before what runs next, unless it failed.
eats_then :
    {A B C : Type 0} (p : Parser A) (m : Option (Parser B)) (kept : B → C)
    (next : Parser B → Option (Parser C))
    → IsInside p.span
    → After (Past p.span) m
    → After (Less p.span) m
    → ((q : Parser B) → IsInside q.span → After (Past q.span) (next q))
    → After (Less p.span) (m >>= λ q. if q.err then some (convert kept q) else next q)
eats_then p m kept next i f h n =
    After->>= (λ q. Past p.span q × Less p.span q) (Less p.span) m _
      (After-both (Past p.span) (Less p.span) m f h)
      λ q g.
        After-if (Less p.span) q.err _ _ (λ e u. absurd (true≢false (sym e ∙ u)))
          λ e.
            After-imp (Past q.span) (Less p.span) (next q)
              (λ r k u. omega (arith, shorter k, g.1 e)) (n q (Follows-IsInside g.0 i))

-- Something is read by what runs next, unless an earlier run failed.
then_eats :
    {A B C : Type 0} (p : Parser A) (m : Option (Parser B)) (kept : B → C)
    (next : Parser B → Option (Parser C))
    → IsInside p.span
    → After (Past p.span) m
    → ((q : Parser B) → IsInside q.span → After (Less q.span) (next q))
    → After (Less p.span) (m >>= λ q. if q.err then some (convert kept q) else next q)
then_eats p m kept next i h n = After->>= (Past p.span) (Less p.span) m _ h λ q f.
    After-if (Less p.span) q.err _ _ (λ e u. absurd (true≢false (sym e ∙ u)))
      λ e.
        After-imp (Less q.span) (Less p.span) (next q) (λ r g e. omega (arith, shorter f, g e))
          (n q (Follows-IsInside f i))

module _ {A B C : Type 0} where
  pub run_chain-Eats :
      (kept : B → C) (left : Run A B) (right : Run B C)
      → Moves left
      → Moves right
      → Eats left ⊎ Eats right
      → Eats (run_chain kept left right)
  unfolding run_chain
  run_chain-Eats kept left right l r (inl e) p i =
      eats_then p (left p) kept right i (l p i) (e p i) r
  run_chain-Eats kept left right l r (inr e) p i = then_eats p (left p) kept right i (l p i) e

  pub run_combine-Eats :
      (kept : B → C) (resmap : A → B → C) (inner : Run A B)
      → Moves inner
      → Eats inner
      → Eats (run_combine kept resmap inner)
  unfolding run_combine
  run_combine-Eats kept resmap inner m e p i =
      eats_then p (inner p) kept _ i (m p i) (e p i) λ q j. Follows-refl q.span

  pub run_tuple_map-Eats :
      (kept : B → B × C) (kept_rest : C → B × C) (head : Run A B) (rest : Run B C)
      → Moves head
      → Moves rest
      → Eats head ⊎ Eats rest
      → Eats (run_tuple_map kept kept_rest head rest)
  unfolding run_tuple_map
  run_tuple_map-Eats kept kept_rest head rest h r (inl e) p i =
      eats_then p (head p) kept _ i (h p i) (e p i) λ q j.
        then_moves q (rest q) _ j (r q j) (unless_err-Moves kept_rest _ λ u k. Follows-refl u.span)
  run_tuple_map-Eats kept kept_rest head rest h r (inr e) p i =
      then_eats p (head p) kept _ i (h p i)
        λ q j. eats_then q (rest q) kept_rest _ j (r q j) (e q j) λ u k. Follows-refl u.span

module _ {A B : Type 0} where
  pub run_tuple_one-Eats : (head : Run A B) → Moves head → Eats head → Eats (run_tuple_one head)
  unfolding run_tuple_one
  run_tuple_one-Eats head m e p i =
      eats_then p (head p) (λ b. (b, tt)) _ i (m p i) (e p i) λ q j. Follows-refl q.span

  pub run_or-Eats : (left right : Run A B) → Eats left → Eats right → Eats (run_or left right)
  unfolding run_or
  run_or-Eats left right l r p i =
      After->>= (Less p.span) (Less p.span) (left p) _ (l p i)
        λ q f. After-if (Less p.span) q.err _ _ (λ e. r p i) (λ e. f)

  pub run_parse_string-Eats :
      (kept : B → List ℕ) (inner : Run A B)
      → Moves inner
      → Eats inner
      → Eats (run_parse_string kept inner)
  unfolding run_parse_string
  run_parse_string-Eats kept inner m e p i =
      eats_then p (inner p) kept _ i (m p i) (e p i) λ q j. Follows-refl q.span

pub run_skip-Eats :
    {A : Type 0} (kept : Unit {0} → A) (inner : Run (Unit {0}) (Unit {0}))
    → Eats inner
    → Eats (run_skip kept inner)
unfolding run_skip
run_skip-Eats kept inner e p i =
    After->>= (Less p.span) (Less p.span) (inner (with_res p tt)) _ (e (with_res p tt) i)
      λ q l. if-cases (Less p.span) q.err _ _ (λ t. l) (λ f u. l f)

pub fail_or_skip-Less :
    {A : Type 0} (b : Bool) (n : ℕ) (p : Parser A)
    → IsInside p.span
    → 0 < n
    → (b ≡ false → n ≤ p.span.length)
    → Less p.span (fail_or_skip b n p)
unfolding fail_or_skip
fail_or_skip-Less b n p i h l =
    if-cases (Less p.span) b _ _ (λ e u. absurd (true≢false u))
      (λ e u. let le : n ≤ p.span.length = l e in omega (arith, advance-length i le, le, h))

pub take_value-Less :
    {A : Type 0} (p : Parser (Unit {0})) (r : A × ℕ)
    → IsInside p.span
    → r.1 ≤ strlen (ahead p.span)
    → Less p.span (take_value p r)
unfolding take_value advance
take_value-Less p r i h =
    if-cases (Less p.span) (r.1 == 0) _ _ (λ e u. absurd (true≢false u))
      (λ e u.
        let le : r.1 ≤ p.span.length = omega (arith, h, strlen-ahead i) in
        let ne : 0 < r.1 = ground arith in omega (arith, advance-length i le, le, ne))
