-- ===== src/Parser/Bytes.antt =====
-- The texts that the maps of src/parser.hpp accept which read single bytes and literals.
use mathlib.Core.List.{append_cancel_right}
use corecommon.Common.{
  ℕ, zero, suc, ◌+◌, ◌-◌, ◌≤◌, ◌≡◌, ◌≢◌, refl, sym, ap, ◌∙◌, Bool, true, false, not, List, [], ◌∷◌,
  ◌++◌, arith, length, get_or, take, drop, ◌==◌, length-take, drop-take, drop-drop, Gives->>=,
  Gives-both, Gives-else, if-cases,
}
use corecommon.Parser.Span.{
  ParserSpan, rest_of, ahead, advance, strlen, count_while, is_text, strchr_found,
}
use corecommon.Parser.State.{Parser, codes}
use corecommon.Parser.Steps.{run_any, run_ws, run_eof, fail_or_skip, negate}
use corecommon.Parser.Maps.{run_parse_string, run_look_ahead, run_not}
use corecommon.Parser.Syntax.{
  ParseMap, any, parse_ws, parse_eof, match_text, parse_string, look_ahead, not_map, run,
}
use corecommon.Parser.Texts.{IsInside, Follows, Follows-IsInside, advance-length, advance-Follows}
use corecommon.Parser.Advances.{StaysInside, run_match-Follows, run-Moves, strlen-ahead}
use corecommon.Parser.Literal.{IsString, run_match-IsString, run_match-refused, between-rest_of}
use corecommon.Parser.Accepts.{At, HasFailed, Accepts, Rejects}

strlen-le-length : (s : List ℕ) → strlen s ≤ length s
unfolding count_while
strlen-le-length [] = omega arith
strlen-le-length (c ∷ s) =
    if-cases (λ n. n ≤ suc (length s)) (is_text c) _ _ (λ e. omega (arith, strlen-le-length s))
      (λ e. omega arith)

-- What is left is as long as the span says.
pub length-rest_of : (s : ParserSpan) → IsInside s → length (rest_of s) ≡ s.length
length-rest_of s i =
    omega (arith, length-take s.length (ahead s), strlen-le-length (ahead s), strlen-ahead i)

head-take : (n c : ℕ) (xs t : List ℕ) → take n xs ≡ c ∷ t → get_or xs 0 0 ≡ c
head-take zero c xs t e = absurd (cc)
head-take (suc n) c [] t e = absurd (cc)
head-take (suc n) c (x ∷ xs) t e = cc

rest_of-next :
    (s : ParserSpan) (c : ℕ) (t : List ℕ)
    → IsInside s
    → rest_of s ≡ c ∷ t
    → (1 ≤ s.length) × (rest_of (advance s 1) ≡ t)
unfolding advance
rest_of-next s c t i e =
    let some_left : 1 ≤ s.length = omega (arith, length-rest_of s i, ap length e) in
    let one_less = advance-length i some_left in
    (
      some_left,
      ap (λ n. take n (drop (s.text + 1) s.start)) one_less
          ∙ ap (take (s.length - 1)) (drop-drop s.text 1 s.start)
          ∙ sym (drop-take 1 s.length (ahead s))
          ∙ ap (drop 1) e,
    )

fail_or_skip-passes :
    {A : Type 0} (b : Bool) (n : ℕ) (p : Parser A)
    → b ≡ false
    → ((fail_or_skip b n p).err ≡ p.err) × ((fail_or_skip b n p).span ≡ advance p.span n)
unfolding fail_or_skip
fail_or_skip-passes b n p e = (rw e refl, rw e refl)

fail_or_skip-fails :
    {A : Type 0} (b : Bool) (n : ℕ) (p : Parser A) → b ≡ true → (fail_or_skip b n p).err ≡ true
unfolding fail_or_skip
fail_or_skip-fails b n p e = rw e refl

-- What a primitive that reads one byte leaves.
skipped-At :
    {c : ℕ} {t : List ℕ} (b : Bool) (p q : Parser (Unit {0}))
    → At tt (c ∷ t) p
    → q.span ≡ p.span
    → q.err ≡ p.err
    → b ≡ false
    → At tt t (fail_or_skip b 1 q)
skipped-At {c} {t} b p q h s o e =
    let (more, rest) = rest_of-next p.span c t h.inside h.left in
    let (ok, at) = fail_or_skip-passes b 1 q e in
    let span : (fail_or_skip b 1 q).span ≡ advance p.span 1 = at ∙ ap (λ x. advance x 1) s in
    record {
      inside = rw span (Follows-IsInside (advance-Follows h.inside more) h.inside);
      ok = ok ∙ o ∙ h.ok;
      res = refl;
      left = ap rest_of span ∙ rest;
    }

pub left-length :
    {A : Type 0} {a : A} {s : List ℕ} {p : Parser A} → At a s p → p.span.length ≡ length s
left-length {p = p} h = sym (length-rest_of p.span h.inside) ∙ ap length h.left

module _ (fuel : ℕ) where
  pub any-Accepts : (c : ℕ) (t : List ℕ) → Accepts fuel any tt (c ∷ t) tt t
  unfolding run run_any
  any-Accepts c t = record {
    gives = λ p h.
        let e = left-length h in skipped-At (p.span.length == 0) p _ h refl refl (ground arith);
  }

  pub any-Rejects : Rejects fuel any tt []
  unfolding run run_any
  any-Rejects = record {
    fails =
        λ p h. let e = left-length h in fail_or_skip-fails (p.span.length == 0) 1 _ (ground arith);
  }

  pub parse_ws-Accepts :
      (c : ℕ) (t : List ℕ)
      → strchr_found (codes "\r\n ") c ≡ true
      → Accepts fuel parse_ws tt (c ∷ t) tt t
  unfolding run run_ws
  parse_ws-Accepts c t w = record {
    gives = λ p h.
        let e = left-length h in
        let some_left : (p.span.length == 0) ≡ false = ground arith in
        let byte : get_or (ahead p.span) 0 0 ≡ c =
          head-take p.span.length c (ahead p.span) t h.left in
        skipped-At _ p _ h refl refl (rw (some_left, byte, w) refl);
  }

  -- At a byte that is no white space, or at the end.
  pub parse_ws-Rejects :
      (c : ℕ) (t : List ℕ)
      → strchr_found (codes "\r\n ") c ≡ false
      → Rejects fuel parse_ws tt (c ∷ t)
  unfolding run run_ws
  parse_ws-Rejects c t w = record {
    fails = λ p h.
        let e = left-length h in
        let some_left : (p.span.length == 0) ≡ false = ground arith in
        let byte : get_or (ahead p.span) 0 0 ≡ c =
          head-take p.span.length c (ahead p.span) t h.left in
        fail_or_skip-fails _ 1 _ (rw (some_left, byte, w) refl);
  }

  pub parse_ws-Rejects_end : Rejects fuel parse_ws tt []
  unfolding run run_ws
  parse_ws-Rejects_end = record {
    fails = λ p h.
        let e = left-length h in
        let none_left : (p.span.length == 0) ≡ true = ground arith in
        fail_or_skip-fails _ 1 _ (rw none_left refl);
  }

  pub match_text-Accepts :
      (literal t : List ℕ)
      → IsString literal
      → Accepts fuel (match_text literal) tt (literal ++ t) tt t
  unfolding run
  match_text-Accepts literal t s = record {
    gives = λ p h.
        let (ok, left) = (run_match-IsString literal p s h.inside h.ok).0 t h.left in
        record {
          inside = Follows-IsInside (run_match-Follows literal p h.inside) h.inside;
          ok = ok;
          res = refl;
          left = left;
        };
  }

  pub match_text-Rejects :
      (literal s : List ℕ)
      → IsString literal
      → ((t : List ℕ) → s ≢ literal ++ t)
      → Rejects fuel (match_text literal) tt s
  unfolding run
  match_text-Rejects literal s h n = record {
    fails = λ p k. (run_match-refused literal p h k.inside k.ok (λ t e. n t (sym k.left ∙ e))).0;
  }

  pub parse_eof-Accepts : Accepts fuel parse_eof tt [] tt []
  unfolding run run_eof
  parse_eof-Accepts = record {
    gives = λ p h.
        let e = left-length h in
        let done : (p.span.length == 0) ≡ true = ground arith in
        rw done (record { inside = h.inside; ok = h.ok; res = refl; left = h.left });
  }

  -- `ParseString` gives the text between the two ends of its inner map.
  pub parse_string-Accepts :
      {A B : Type 0} {kept : B → List ℕ} {inner : ParseMap A B} {a : A} {b : B} (u t : List ℕ)
      → StaysInside inner
      → Accepts fuel inner a (u ++ t) b t
      → Accepts fuel (parse_string kept inner) a (u ++ t) u t
  unfolding run run_parse_string
  parse_string-Accepts {A} {B} {kept} {inner} {a} {b} u t h f = record {
    gives = λ p k.
        Gives->>= (λ q. At b t q × Follows p.span q.span) (At u t) _ _
          (Gives-both (At b t) (λ q. Follows p.span q.span) (run fuel inner p) (f.gives p k)
            (run-Moves fuel inner h p k.inside))
          λ q g. Gives-else (At u t) _ _ g.0.ok (record {
            inside = g.0.inside;
            ok = refl;
            res = append_cancel_right _ _ t (
                ap (λ x. take (q.span.text - p.span.text) (ahead p.span) ++ x) (sym g.0.left)
                ∙ between-rest_of g.1
                ∙ k.left);
            left = g.0.left;
          });
  }

  -- `!LookAhead(m)` reads nothing.
  pub not_look_ahead-Accepts :
      {m : ParseMap (Unit {0}) (Unit {0})} {s : List ℕ}
      → Rejects fuel m tt s
      → Accepts fuel (not_map (look_ahead m)) tt s tt s
  unfolding run run_not run_look_ahead negate
  not_look_ahead-Accepts {m} {s} f = record {
    gives = λ p h.
        Gives->>= (λ q. HasFailed q × (q.span ≡ p.span)) (At tt s) (run fuel (look_ahead m) p) _
          (Gives->>= HasFailed (λ q. HasFailed q × (q.span ≡ p.span)) (run fuel m p) _ (f.fails p h)
            (λ q e. (e, refl)))
          λ q g. record {
            inside = rw g.1 h.inside;
            ok = ap not g.0;
            res = refl;
            left = ap rest_of g.1 ∙ h.left;
          };
  }

  pub not_look_ahead-Rejects :
      {m : ParseMap (Unit {0}) (Unit {0})} {s t : List ℕ}
      → Accepts fuel m tt s tt t
      → Rejects fuel (not_map (look_ahead m)) tt s
  unfolding run run_not run_look_ahead negate
  not_look_ahead-Rejects {m} {s} {t} f = record {
    fails = λ p h.
        Gives->>= (λ q. q.err ≡ false) HasFailed (run fuel (look_ahead m) p) _
          (Gives->>= (At tt t) (λ q. q.err ≡ false) (run fuel m p) _ (f.gives p h) (λ q g. g.ok))
          λ q e. ap not e;
  }
