-- ===== src/Config/Names.antt =====
-- The names that the configuration parser of src/config.cpp accepts.
use corecommon.Common.{
  ℕ, ◌+◌, ◌<◌, ◌≡◌, refl, ap, ◌∙◌, true, false, ◌==◌, ◌||◌, List, [], ◌∷◌, ◌++◌, arith, length,
  length-append,
}
use corecommon.Parser.Span.{strchr_found, is_digit}
use corecommon.Parser.State.{codes}
use corecommon.Parser.Advances.{StaysInside}
use corecommon.Parser.Numbers.{print_long-cons}
use corecommon.Parser.Accepts.{
  Accepts, Rejects, chain-Accepts, chain-Rejects_right, skip-Accepts, skip-Rejects,
}
use corecommon.Parser.Loops.{stop, many-Accepts}
use corecommon.Parser.Bytes.{
  parse_string-Accepts, parse_ws-Rejects_end, any-Rejects, not_look_ahead-Accepts,
}
use corecommon.Config.Format.{
  Floats, Variant, of_long, of_bool, of_string, of_float, name, sep, all_of, print_var,
}
use corecommon.Config.Entries.{
  is_blank, IsName, blanks_none, sep-Accepts, sep-Rejects_end, letter, letters-Loops,
}
use corecommon.Config.Values.{IsWritten}

letters-StaysInside : StaysInside (all_of letter)
unfolding StaysInside sep
letters-StaysInside = (((tt, tt), tt), tt)

module _ (fuel : ℕ) where
  -- A name is read up to the separator, where the text behind it does not begin with a blank.
  pub name-Accepts :
      (d : ℕ) (k : List ℕ) (c : ℕ) (t s : List ℕ)
      → IsName (d ∷ k)
      → s ≡ c ∷ t
      → is_blank c ≡ false
      → 6 + (length k + length t) < fuel
      → Accepts fuel name tt ((d ∷ k) ++ (codes " = " ++ s)) (d ∷ k) s
  unfolding name IsName
  name-Accepts d k c t s n e b h =
      let rest : List ℕ = k ++ (codes " = " ++ (c ∷ t)) in
      let size : length rest ≡ length k + (4 + length t) =
        length-append k (codes " = " ++ (c ∷ t)) ∙ omega arith in
      rw e (
        chain-Accepts (blanks_none fuel d rest n.0 (omega arith)) (
          chain-Accepts
            (parse_string-Accepts fuel (d ∷ k) (codes " = " ++ (c ∷ t)) letters-StaysInside
              (many-Accepts (letters-Loops fuel (d ∷ k) c t n b (omega arith)) (omega arith)))
            (skip-Accepts (sep-Accepts fuel c t b (omega arith)))))

  pub name-Rejects_end : 0 < fuel → Rejects fuel name tt []
  unfolding name
  name-Rejects_end h = chain-Rejects_right (many-Accepts (stop (parse_ws-Rejects_end fuel)) h) (
      chain-Rejects_right
        (parse_string-Accepts fuel [] [] letters-StaysInside (
          many-Accepts
            (stop (
              chain-Rejects_right (not_look_ahead-Accepts fuel (sep-Rejects_end fuel h))
                (any-Rejects fuel)))
            h))
        (skip-Rejects (sep-Rejects_end fuel h)))

number-is_blank : (c : ℕ) → (c == b'-' || is_digit c) ≡ true → is_blank c ≡ false
unfolding strchr_found
number-is_blank c e = ground arith

module _ (floats : Floats) where
  pub written-cons :
      (v : Variant floats) (t : List ℕ)
      → IsWritten floats v
      → (c : ℕ) × (u : List ℕ) × (print_var floats v ++ t ≡ c ∷ u) × (is_blank c ≡ false)
  unfolding IsWritten strchr_found
  written-cons (of_long z) t w =
      let (c, u, e, f) = print_long-cons z in (c, u ++ t, ap (λ x. x ++ t) e, number-is_blank c f)
  written-cons (of_bool true) t w = (b't', _, refl, refl)
  written-cons (of_bool false) t w = (b'f', _, refl, refl)
  written-cons (of_string x) t w = absurd w
  written-cons (of_float x) t w = absurd w
