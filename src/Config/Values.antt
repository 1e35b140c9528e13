-- ===== src/Config/Values.antt =====
-- The values that the configuration parser of src/config.cpp accepts.
use corecommon.Common.{
  ℕ, suc, ◌≡◌, ◌≢◌, refl, sym, ap, ◌∙◌, Bool, true, false, ◌==◌, ◌||◌, List, ◌∷◌, ◌++◌, arith, ℤ,
  get_or, drop,
}
use corecommon.Parser.Span.{count_while, strtol, ahead}
use corecommon.Parser.State.{Parser, codes}
use corecommon.Parser.Steps.{take_value, run_int, run_float}
use corecommon.Parser.Syntax.{parse_int, parse_float, or_else, run}
use corecommon.Parser.Literal.{ahead-rest_of}
use corecommon.Parser.Numbers.{print_long, IsLong, parse_int-Accepts}
use corecommon.Parser.Accepts.{
  At, Accepts, Rejects, chain-Accepts, chain-Rejects_left, skip-Accepts, or_else-Accepts_left,
  or_else-Accepts_right, or_else-Rejects, result_map-Accepts, ignore-Accepts,
}
use corecommon.Parser.Loops.{many_once-Accepts}
use corecommon.Parser.Bytes.{match_text-Accepts, match_text-Rejects}
use corecommon.Config.Format.{
  Floats, Variant, of_long, of_bool, of_string, of_float, given, newline, long_value, float_value,
  bool_value, value, print_var,
}

-- The values that are written as they are read: a `long`, or a Boolean.
unfoldable pub IsWritten : (floats : Floats) → Variant floats → Type 0
IsWritten floats (of_long z) = IsLong z
IsWritten floats (of_bool b) = Unit
IsWritten floats _ = ⊥

take_value-fails :
    {A : Type 0} (p : Parser (Unit {0})) (r : A × ℕ) → r.1 ≡ 0 → (take_value p r).err ≡ true
unfolding take_value
take_value-fails p r e = let none_read : (r.1 == 0) ≡ true = ground arith in rw none_read refl

-- What is ahead begins with the first byte that is left.
ahead-cons :
    {A : Type 0} {a : A} {c : ℕ} {t : List ℕ} {p : Parser A}
    → At a (c ∷ t) p
    → (u : List ℕ) × (ahead p.span ≡ c ∷ u)
ahead-cons {c = c} {t = t} {p = p} h =
    (_, sym (ahead-rest_of p.span) ∙ ap (λ x. x ++ drop p.span.length (ahead p.span)) h.left)

abbrev is_letter : ℕ → Bool
is_letter c = c == b't' || c == b'f'

strtol-letter : (c : ℕ) (s : List ℕ) → is_letter c ≡ true → (strtol (c ∷ s)).1 ≡ 0
unfolding strtol count_while
strtol-letter c s e = ground arith

other_first : (c d : ℕ) (t u : List ℕ) → c ≢ d → c ∷ t ≢ d ∷ u
other_first c d t u h f = h (ap (λ x. get_or x 0 0) f)

parse_int-Rejects :
    (fuel c : ℕ) (t : List ℕ) → is_letter c ≡ true → Rejects fuel parse_int tt (c ∷ t)
unfolding run run_int
parse_int-Rejects fuel c t e = record {
  fails = λ p h.
      let (u, at) = ahead-cons h in
      take_value-fails p _ (ap (λ x. (strtol x).1) at ∙ strtol-letter c u e);
}

module _ (fuel : ℕ) where
  newline-Accepts : (t : List ℕ) → Accepts (suc (suc fuel)) newline tt (codes "\n" ++ t) tt t
  unfolding newline count_while
  newline-Accepts t = many_once-Accepts (
      or_else-Accepts_right
        (match_text-Rejects (suc (suc fuel)) (codes "\r") (b'\n' ∷ t) refl
          (λ u f. other_first b'\n' b'\r' t u (omega arith) f))
        (match_text-Accepts (suc (suc fuel)) (codes "\n") t refl))

module _ (floats : Floats) (n : ℕ) where
  abbrev fuel : ℕ
  fuel = suc (suc n)

  parse_float-Rejects :
      (c : ℕ) (t : List ℕ)
      → is_letter c ≡ true
      → Rejects fuel (parse_float floats.strtof) tt (c ∷ t)
  unfolding run run_float
  parse_float-Rejects c t e = record {
    fails = λ p h.
        let (u, at) = ahead-cons h in
        take_value-fails p _ (ap (λ x. (floats.strtof x).1) at ∙ floats.no_number c u e);
  }

  long_value-Accepts :
      (z : ℤ) (t : List ℕ)
      → IsLong z
      → Accepts fuel
          (long_value floats)
          tt
          (print_long z ++ (codes "\n" ++ t))
          (given floats (of_long z))
          t
  unfolding long_value
  long_value-Accepts z t h =
      chain-Accepts
        (chain-Accepts (parse_int-Accepts fuel z b'\n' t h refl)
          (skip-Accepts (newline-Accepts n t)))
        result_map-Accepts

  bool_value-Accepts :
      (b : Bool) (t : List ℕ)
      → Accepts fuel
          (bool_value floats)
          tt
          (print_var floats (of_bool b) ++ (codes "\n" ++ t))
          (given floats (of_bool b))
          t
  unfolding bool_value count_while
  bool_value-Accepts true t =
      chain-Accepts
        (or_else-Accepts_left (
          chain-Accepts (match_text-Accepts fuel (codes "true") (b'\n' ∷ t) refl)
            result_map-Accepts))
        (skip-Accepts (newline-Accepts n t))
  bool_value-Accepts false t =
      chain-Accepts
        (or_else-Accepts_right
          (chain-Rejects_left (
            match_text-Rejects fuel (codes "true") (codes "false\n" ++ t) refl
              (λ u f. other_first b'f' b't' _ _ (omega arith) f)))
          (chain-Accepts (match_text-Accepts fuel (codes "false") (b'\n' ∷ t) refl)
            result_map-Accepts))
        (skip-Accepts (newline-Accepts n t))

  -- A number reads as no Boolean's first letter does.
  number-Rejects :
      (c : ℕ) (t : List ℕ)
      → is_letter c ≡ true
      → Rejects fuel (or_else (long_value floats) (float_value floats)) tt (c ∷ t)
  unfolding long_value float_value
  number-Rejects c t e =
      or_else-Rejects (chain-Rejects_left (chain-Rejects_left (parse_int-Rejects fuel c t e)))
        (chain-Rejects_left (chain-Rejects_left (parse_float-Rejects c t e)))

  -- A value is read as it is written, up to the end of its line.
  pub value-Accepts :
      (k : List ℕ) (v : Variant floats) (t : List ℕ)
      → IsWritten floats v
      → Accepts fuel (value floats) k (print_var floats v ++ (codes "\n" ++ t)) (given floats v) t
  unfolding value IsWritten
  value-Accepts k (of_long z) t w = chain-Accepts ignore-Accepts (
      or_else-Accepts_left (or_else-Accepts_left (or_else-Accepts_left (long_value-Accepts z t w))))
  value-Accepts k (of_bool true) t w = chain-Accepts ignore-Accepts (
      or_else-Accepts_left
        (or_else-Accepts_right (number-Rejects b't' _ refl) (bool_value-Accepts true t)))
  value-Accepts k (of_bool false) t w = chain-Accepts ignore-Accepts (
      or_else-Accepts_left
        (or_else-Accepts_right (number-Rejects b'f' _ refl) (bool_value-Accepts false t)))
  value-Accepts k (of_string x) t w = absurd w
  value-Accepts k (of_float x) t w = absurd w
