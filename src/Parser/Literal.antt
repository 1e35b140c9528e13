-- ===== src/Parser/Literal.antt =====
-- What `Match` and `ParseString` of src/parser.hpp read, as text.
use mathlib.Core.Bool.{true≢false}
use corecommon.Common.{
  ◌≢◌, ℕ, suc, ◌+◌, ◌-◌, ◌≤◌, ◌≡◌, refl, sym, ap, ◌∙◌, Bool, true, false, not, ◌||◌, List, [], ◌∷◌,
  ◌++◌, append_assoc, arith, length, take, drop, ltb, ◌==◌, Bool-cases, inl, inr, length-take,
  length-append, take-drop, drop-drop, drop-length_append, take-length_append, take_split, some,
  After, After->>=, After-if, After-some,
}
use corecommon.Parser.Span.{
  strlen, is_text, count_while, strncmp_same, ParserSpan, ahead, rest_of, advance,
}
use corecommon.Parser.State.{Parser}
use corecommon.Parser.Steps.{run_match, fail_or_skip}
use corecommon.Parser.Maps.{run_parse_string}
use corecommon.Parser.Syntax.{ParseMap, parse_string, run}
use corecommon.Parser.Texts.{IsInside, Follows, advance-length}
use corecommon.Parser.Advances.{or_false, StaysInside, run-Moves}

-- A string of C that ends where the list does.
abbrev pub IsString : List ℕ → Type 0
IsString s = strlen s ≡ length s

IsString-head : (c : ℕ) (s : List ℕ) → IsString (c ∷ s) → ((c == 0) ≡ false) × IsString s
unfolding count_while
IsString-head c s h = elim (Bool-cases (is_text c)) [
  | inl t ↦
      let h' : suc (strlen s) ≡ suc (length s) = rw t at h in (ground arith, omega (arith, h'))
  | inr f ↦ let h' : 0 ≡ suc (length s) = rw f at h in absurd (omega (arith, h'))
]

pub cons-IsString : (c : ℕ) (s : List ℕ) → (c == 0) ≡ false → IsString s → IsString (c ∷ s)
unfolding count_while
cons-IsString c s e h = rw e (ap suc h)

pub IsString-append : (s t : List ℕ) → IsString s → IsString t → IsString (s ++ t)
IsString-append [] t h k = k
IsString-append (c ∷ s) t h k =
    let (text, rest) = IsString-head c s h in
    cons-IsString c (s ++ t) text (IsString-append s t rest k)

strncmp_same-append : (t u : List ℕ) → IsString t → strncmp_same (t ++ u) t (length t) ≡ true
unfolding strncmp_same
strncmp_same-append [] u h = refl
strncmp_same-append (c ∷ t) u h =
    let (ne, h') = IsString-head c t h in
    let same : (c == c) ≡ true = ground arith in rw (same, ne) (strncmp_same-append t u h')

strncmp_same-split :
    (s t : List ℕ) → IsString t → strncmp_same s t (length t) ≡ true → (u : List ℕ) × (s ≡ t ++ u)
unfolding strncmp_same
strncmp_same-split s [] h e = (s, refl)
strncmp_same-split [] (c ∷ t) h e =
    let ne : (c == 0) ≡ false = (IsString-head c t h).0 in
    let ne' : (0 == c) ≡ false = ground arith in absurd (true≢false (sym e ∙ rw ne' refl))
strncmp_same-split (d ∷ s) (c ∷ t) h e = elim (Bool-cases (d == c)) [
  | inl same ↦
      let eq : d ≡ c = ground arith in
      let (ne, h') = IsString-head c t h in
      let e' : strncmp_same s t (length t) ≡ true = rw (same, eq, ne) at e in
      let (u, f) = strncmp_same-split s t h' e' in (u, rw (eq, f) refl)
  | inr differs ↦ absurd (true≢false (sym e ∙ rw differs refl))
]

-- What is ahead starts with what is left.
pub ahead-rest_of : (s : ParserSpan) → rest_of s ++ drop s.length (ahead s) ≡ ahead s
ahead-rest_of s = take-drop s.length (ahead s)

pub rest_of-advance :
    {s : ParserSpan} (t u : List ℕ)
    → IsInside s
    → length t ≤ s.length
    → ahead s ≡ t ++ u
    → (rest_of s ≡ t ++ take (s.length - length t) u)
      × (rest_of (advance s (length t)) ≡ take (s.length - length t) u)
unfolding advance
rest_of-advance {s} t u i le e =
    let split : s.length ≡ length t + (s.length - length t) = omega arith in
    let behind : drop (length t) (ahead s) ≡ u = rw e (drop-length_append t u) in
    let front : take (length t) (ahead s) ≡ t = rw e (take-length_append t u) in
    let moved : drop (s.text + length t) s.start ≡ u =
      drop-drop s.text (length t) s.start ∙ behind in
    (
      ap (λ n. take n (ahead s)) split
          ∙ sym (take_split (length t) (s.length - length t) (ahead s))
          ∙ rw (front, behind) refl,
      rw (moved, advance-length i le) refl,
    )

-- The test that makes `Match` fail.
abbrev refuses : List ℕ → ParserSpan → Bool
refuses literal s =
    ltb s.length (strlen literal) || not (strncmp_same (ahead s) literal (strlen literal))

refuses_not :
    (literal u : List ℕ) (s : ParserSpan)
    → IsString literal
    → length literal ≤ s.length
    → ahead s ≡ literal ++ u
    → refuses literal s ≡ false
refuses_not literal u s h le e =
    let same : strncmp_same (ahead s) literal (length literal) ≡ true =
      rw e (strncmp_same-append literal u h) in
    let enough : ltb s.length (length literal) ≡ false = ground arith in rw (h, same, enough) refl

not_refuses :
    (literal : List ℕ) (s : ParserSpan)
    → IsString literal
    → refuses literal s ≡ false
    → (length literal ≤ s.length) × ((u : List ℕ) × (ahead s ≡ literal ++ u))
not_refuses literal s h e =
    let (short, differs) =
      or_false (ltb s.length (strlen literal))
        (not (strncmp_same (ahead s) literal (strlen literal))) e in
    let same : strncmp_same (ahead s) literal (strlen literal) ≡ true = ground arith in
    let enough : strlen literal ≤ s.length = ground arith in
    (rw h at enough, strncmp_same-split (ahead s) literal h (rw h at same))

run_match-passes :
    (literal : List ℕ) (p : Parser (Unit {0}))
    → refuses literal p.span ≡ false
    → ((run_match literal p).err ≡ p.err)
      × ((run_match literal p).span ≡ advance p.span (strlen literal))
unfolding run_match fail_or_skip
run_match-passes literal p e = (rw e refl, rw e refl)

run_match-fails :
    (literal : List ℕ) (p : Parser (Unit {0}))
    → refuses literal p.span ≡ true
    → ((run_match literal p).err ≡ true) × ((run_match literal p).span ≡ p.span)
unfolding run_match fail_or_skip
run_match-fails literal p e = (rw e refl, rw e refl)

-- `Match` accepts just the texts that start with its literal, and leaves what comes after it. The
-- hypotheses: the literal has no byte 0, the parser's span is one inside its text, and it has not
-- failed before.
pub run_match-IsString :
    (literal : List ℕ) (p : Parser (Unit {0}))
    → IsString literal
    → IsInside p.span
    → p.err ≡ false
    → ((tail : List ℕ)
        → rest_of p.span ≡ literal ++ tail
        → ((run_match literal p).err ≡ false) × (rest_of (run_match literal p).span ≡ tail))
      × ((run_match literal p).err ≡ false → (tail : List ℕ) × (rest_of p.span ≡ literal ++ tail))
run_match-IsString literal p h i ok = (
  (λ tail e.
      let behind : List ℕ = drop p.span.length (ahead p.span) in
      let whole : ahead p.span ≡ literal ++ (tail ++ behind) =
        sym (ahead-rest_of p.span) ∙ ap (λ t. t ++ behind) e ∙ append_assoc literal tail behind in
      let le : length literal ≤ p.span.length = omega (
        arith,
        length-take p.span.length (ahead p.span),
        ap length e,
        length-append literal tail,
      ) in
      let passes = refuses_not literal (tail ++ behind) p.span h le whole in
      let (ok', at) = run_match-passes literal p passes in
      let (here, there) = rest_of-advance literal (tail ++ behind) i le whole in
      let same : take (p.span.length - length literal) (tail ++ behind) ≡ tail =
        sym (drop-length_append literal _)
        ∙ ap (drop (length literal)) (sym here ∙ e)
        ∙ drop-length_append literal tail in
      (ok' ∙ ok, ap rest_of at ∙ ap (λ n. rest_of (advance p.span n)) h ∙ there ∙ same)),
  λ ok'. elim (Bool-cases (refuses literal p.span)) [
    | inl e ↦ absurd (true≢false (sym (run_match-fails literal p e).0 ∙ ok'))
    | inr e ↦
        let (le, (u, whole)) = not_refuses literal p.span h e in
        (_, (rest_of-advance literal u i le whole).0)
  ],
)

-- Where a text does not start with the literal, `Match` fails and reads nothing.
pub run_match-refused :
    (literal : List ℕ) (p : Parser (Unit {0}))
    → IsString literal
    → IsInside p.span
    → p.err ≡ false
    → ((tail : List ℕ) → rest_of p.span ≢ literal ++ tail)
    → ((run_match literal p).err ≡ true) × ((run_match literal p).span ≡ p.span)
run_match-refused literal p h i ok no_tail = elim (Bool-cases (refuses literal p.span)) [
  | inl e ↦ run_match-fails literal p e
  | inr e ↦
      let accepted : (run_match literal p).err ≡ false = (run_match-passes literal p e).0 ∙ ok in
      let (tail, starts) = (run_match-IsString literal p h i ok).1 accepted in
      absurd (no_tail tail starts)
]

-- The text between two spans.
pub between-rest_of :
    {s t : ParserSpan} → Follows s t → take (t.text - s.text) (ahead s) ++ rest_of t ≡ rest_of s
between-rest_of {s} {t} f =
    let text : t.text ≡ s.text + (t.text - s.text) = omega (arith, f.onward) in
    let behind : ahead t ≡ drop (t.text - s.text) (ahead s) =
      ap (drop t.text) f.same_start
      ∙ ap (λ n. drop n s.start) text
      ∙ drop-drop s.text (t.text - s.text) s.start in
    let all : (t.text - s.text) + t.length ≡ s.length = omega (arith, f.onward, f.same_end) in
    ap (λ x. take (t.text - s.text) (ahead s) ++ take t.length x) behind
    ∙ take_split (t.text - s.text) t.length (ahead s)
    ∙ ap (λ n. take n (ahead s)) all

-- `ParseString` returns the text that its inner map read: in front of what is left afterwards it is
-- what was left before. The hypotheses: the parser's span is one inside its text, the map stays
-- inside wherever it calls a function it was given, and the run returns and has not failed.
pub parse_string-rest_of :
    (fuel : ℕ) {A B : Type 0} (kept : B → List ℕ) (inner : ParseMap A B) (p : Parser A)
    {q : Parser (List ℕ)}
    → StaysInside inner
    → IsInside p.span
    → run fuel (parse_string kept inner) p ≡ some q
    → q.err ≡ false
    → q.res ++ rest_of q.span ≡ rest_of p.span
unfolding run run_parse_string
parse_string-rest_of fuel {A} {B} kept inner p {q} h i e ok =
    let Reads : Parser (List ℕ) → Type 0 =
      λ r. r.err ≡ false → r.res ++ rest_of r.span ≡ rest_of p.span in
    let all : After Reads (run fuel (parse_string kept inner) p) =
      After->>= (λ (u : Parser B). Follows p.span u.span) Reads (run fuel inner p) _
        (run-Moves fuel inner h p i)
        λ u f.
          After-if Reads u.err _ _ (λ t o. absurd (true≢false (sym t ∙ o)))
            (λ t o. between-rest_of f) in
    After-some Reads all e ok
