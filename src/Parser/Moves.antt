-- ===== src/Parser/Moves.antt =====
-- Where the maps of src/parser.hpp leave the span.
use corecommon.Common.{
  ℕ, zero, suc, ◌≡◌, refl, Bool, List, Option, some, ltb, if◌then◌else◌, if-cases, After, After->>=,
  After-if, After-imp, ◌>>=◌,
}
use corecommon.Parser.Span.{ParserSpan}
use corecommon.Parser.State.{Parser, convert, with_res}
use corecommon.Parser.Steps.{negate}
use corecommon.Parser.Maps.{
  Run, run_chain, run_combine, run_tuple_map, run_tuple_one, run_look_ahead, run_or,
  run_parse_string, many_loop, multiple_loop, array_loop, run_skip, run_not, unless_err,
}
use corecommon.Parser.Texts.{IsInside, Follows, Follows-refl, Follows-trans, Follows-IsInside}

-- A parser at a span that follows.
abbrev pub Past : {A : Type 0} → ParserSpan → Parser A → Type 0
Past s q = Follows s q.span

-- A run that stays within the text and never goes back.
abbrev pub Moves : {A B : Type 0} → Run A B → Type 0
Moves {A} r = (p : Parser A) → IsInside p.span → After (Past p.span) (r p)

-- What runs on from a span further on.
pub then_moves :
    {A B C : Type 0} (p : Parser A) (m : Option (Parser B)) (next : Parser B → Option (Parser C))
    → IsInside p.span
    → After (Past p.span) m
    → ((q : Parser B) → IsInside q.span → After (Past q.span) (next q))
    → After (Past p.span) (m >>= next)
then_moves p m next i h n = After->>= (Past p.span) (Past p.span) m next h λ q f.
    After-imp (Past q.span) (Past p.span) (next q) (λ r g. Follows-trans f g)
      (n q (Follows-IsInside f i))

pub unless_err-Moves :
    {A B : Type 0} (kept : A → B) (next : Run A B) → Moves next → Moves (unless_err kept next)
unless_err-Moves kept next m p i =
    After-if (Past p.span) p.err _ _ (λ e. Follows-refl p.span) (λ e. m p i)

module _ {A B C : Type 0} where
  pub run_chain-Moves :
      (kept : B → C) (left : Run A B) (right : Run B C)
      → Moves left
      → Moves right
      → Moves (run_chain kept left right)
  unfolding run_chain
  run_chain-Moves kept left right l r p i =
      then_moves p (left p) _ i (l p i) (unless_err-Moves kept right r)

  pub run_combine-Moves :
      (kept : B → C) (resmap : A → B → C) (inner : Run A B)
      → Moves inner
      → Moves (run_combine kept resmap inner)
  unfolding run_combine
  run_combine-Moves kept resmap inner m p i = then_moves p (inner p) _ i (m p i) (
      unless_err-Moves kept (λ q. some (with_res q (resmap p.res q.res)))
        λ q j. Follows-refl q.span)

  pub run_tuple_map-Moves :
      (kept : B → B × C) (kept_rest : C → B × C) (head : Run A B) (rest : Run B C)
      → Moves head
      → Moves rest
      → Moves (run_tuple_map kept kept_rest head rest)
  unfolding run_tuple_map
  run_tuple_map-Moves kept kept_rest head rest h r p i = then_moves p (head p) _ i (h p i) λ q j.
      After-if (Past q.span) q.err _ _ (λ e. Follows-refl q.span)
        λ e. then_moves q (rest q) _ j (r q j) (
          unless_err-Moves kept_rest (λ u. some (with_res u (q.res, u.res)))
            λ u k. Follows-refl u.span)

module _ {A B : Type 0} where
  pub run_tuple_one-Moves : (head : Run A B) → Moves head → Moves (run_tuple_one head)
  unfolding run_tuple_one
  run_tuple_one-Moves head h p i = then_moves p (head p) _ i (h p i) (
      unless_err-Moves (λ b. (b, tt)) (λ q. some (with_res q (q.res, tt)))
        λ q j. Follows-refl q.span)

  pub run_look_ahead-Moves : (inner : Run A B) → Moves inner → Moves (run_look_ahead inner)
  unfolding run_look_ahead
  run_look_ahead-Moves inner m p i =
      After->>= (Past p.span) (Past p.span) (inner p) _ (m p i) λ q f. Follows-refl p.span

  pub run_or-Moves : (left right : Run A B) → Moves left → Moves right → Moves (run_or left right)
  unfolding run_or
  run_or-Moves left right l r p i =
      After->>= (Past p.span) (Past p.span) (left p) _ (l p i)
        λ q f. After-if (Past p.span) q.err _ _ (λ e. r p i) (λ e. f)

  pub run_parse_string-Moves :
      (kept : B → List ℕ) (inner : Run A B) → Moves inner → Moves (run_parse_string kept inner)
  unfolding run_parse_string
  run_parse_string-Moves kept inner m p i =
      then_moves p (inner p) _ i (m p i) (unless_err-Moves kept _ λ q j. Follows-refl q.span)

  -- A round of a loop, which ends at its start or where the failed run is.
  round-Moves :
      {C : Type 0} (p : Parser A) (inner : Run A B) (b : Bool) (failed : Parser B → Parser C)
      (done : Parser C) (rest : Parser B → Option (Parser C))
      → IsInside p.span
      → Moves inner
      → ((q : Parser B) → (failed q).span ≡ q.span)
      → done.span ≡ p.span
      → ((q : Parser B) → IsInside q.span → After (Past q.span) (rest q))
      → After
          (Past p.span)
          (inner p >>= λ q. if q.err then some (if b then failed q else done) else rest q)
  round-Moves p inner b failed done rest i m f d n =
      After->>= (Past p.span) (Past p.span) (inner p) _ (m p i) λ q g.
        After-if (Past p.span) q.err _ _
          (λ e. if-cases (Past p.span) b _ _ (λ t. rw (f q) g) (λ t. rw d (Follows-refl p.span)))
          (λ e.
            After-imp (Past q.span) (Past p.span) (rest q) (λ u h. Follows-trans g h)
              (n q (Follows-IsInside g i)))

  pub many_loop-Moves :
      (fuel min max : ℕ) (kept : B → Unit {0}) (inner : Run A B) (n : ℕ)
      → Moves inner
      → Moves (many_loop fuel min max kept inner n)
  unfolding many_loop
  many_loop-Moves zero min max kept inner n m p i = tt
  many_loop-Moves (suc fuel) min max kept inner n m p i =
      After-if (Past p.span) (ltb n max) _ _
        (λ e.
          round-Moves p inner (ltb n min) (convert kept) _ _ i m (λ q. refl) refl
            λ q. many_loop-Moves fuel min max kept inner _ m (record p { span = q.span }))
        (λ e. Follows-refl p.span)

  pub multiple_loop-Moves :
      (fuel min max : ℕ) (kept : B → List B) (inner : Run A B) (n : ℕ) (vec : List B)
      → Moves inner
      → Moves (multiple_loop fuel min max kept inner n vec)
  unfolding multiple_loop
  multiple_loop-Moves zero min max kept inner n vec m p i = tt
  multiple_loop-Moves (suc fuel) min max kept inner n vec m p i =
      After-if (Past p.span) (ltb n max) _ _
        (λ e.
          round-Moves p inner (ltb n min) (convert kept) _ _ i m (λ q. refl) refl
            λ q. multiple_loop-Moves fuel min max kept inner _ _ m (record p { span = q.span }))
        (λ e. Follows-refl p.span)

  pub array_loop-Moves :
      (n : ℕ) (inner : Run A B) (arr : List B) → Moves inner → Moves (array_loop n inner arr)
  unfolding array_loop
  array_loop-Moves zero inner arr m p i = Follows-refl p.span
  array_loop-Moves (suc n) inner arr m p i =
      then_moves p (inner p) _ i (m p i)
        λ q. array_loop-Moves n inner _ m (record p { span = q.span })

pub run_skip-Moves :
    {A : Type 0} (kept : Unit {0} → A) (inner : Run (Unit {0}) (Unit {0}))
    → Moves inner
    → Moves (run_skip kept inner)
unfolding run_skip
run_skip-Moves kept inner m p i =
    then_moves p (inner (with_res p tt)) _ i (m (with_res p tt) i)
      λ q j. if-cases (Past q.span) q.err _ _ (λ e. Follows-refl q.span) λ e. Follows-refl q.span

pub run_not-Moves : (inner : Run (Unit {0}) (Unit {0})) → Moves inner → Moves (run_not inner)
unfolding run_not negate
run_not-Moves inner m p i = then_moves p (inner p) _ i (m p i) λ q j. Follows-refl q.span
