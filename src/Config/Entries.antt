-- ===== src/Config/Entries.antt =====
-- The entries that the configuration parser of src/config.cpp accepts.
use corecommon.Common.{
  ℕ, suc, ◌+◌, ◌<◌, ◌≡◌, ◌≢◌, refl, ◌∙◌, Bool, false, List, [], ◌∷◌, ◌++◌, map, arith, length,
  length-append,
}
use corecommon.Parser.Span.{strchr_found, count_while}
use corecommon.Parser.State.{codes}
use corecommon.Parser.Syntax.{ParseMap, any, not_map, look_ahead, parse_ws}
use corecommon.Parser.Accepts.{
  Accepts, Rejects, chain-Accepts, chain-Rejects_left, chain-Rejects_right,
}
use corecommon.Parser.Loops.{Loops, stop, round, many-Accepts}
use corecommon.Parser.Bytes.{
  any-Accepts, match_text-Accepts, match_text-Rejects, parse_ws-Accepts, parse_ws-Rejects,
  parse_ws-Rejects_end, not_look_ahead-Accepts, not_look_ahead-Rejects,
}
use corecommon.Config.Format.{sep, all_of, then_map}

-- White space, for `ParseWS`.
abbrev pub is_blank : ℕ → Bool
is_blank c = strchr_found (codes "\r\n ") c

-- A name has no white space and no equals sign.
unfoldable pub IsName : List ℕ → Type 0
IsName [] = Unit
IsName (c ∷ k) = (is_blank c ≡ false) × (c ≢ b'=') × IsName k

-- A byte that no separator begins at.
abbrev pub letter : ParseMap (Unit {0}) (Unit {0})
letter = then_map tt (not_map (look_ahead sep)) any

module _ (fuel : ℕ) where
  -- `Many(ParseWS())` in front of another byte, and at the end.
  pub blanks_none :
      (c : ℕ) (t : List ℕ)
      → is_blank c ≡ false
      → suc (length t) < fuel
      → Accepts fuel (all_of parse_ws) tt (c ∷ t) tt (c ∷ t)
  blanks_none c t e h = many-Accepts (stop (parse_ws-Rejects fuel c t e)) h

  blanks_one :
      (c : ℕ) (t : List ℕ)
      → is_blank c ≡ false
      → suc (suc (length t)) < fuel
      → Accepts fuel (all_of parse_ws) tt (b' ' ∷ c ∷ t) tt (c ∷ t)
  unfolding strchr_found
  blanks_one c t e h =
      many-Accepts
        (round (parse_ws-Accepts fuel b' ' (c ∷ t) refl) (omega arith)
          (stop (parse_ws-Rejects fuel c t e)))
        h

  pub sep-Accepts :
      (c : ℕ) (t : List ℕ)
      → is_blank c ≡ false
      → 4 + length t < fuel
      → Accepts fuel sep tt (b' ' ∷ b'=' ∷ b' ' ∷ c ∷ t) tt (c ∷ t)
  unfolding sep strchr_found count_while
  sep-Accepts c t e h =
      chain-Accepts
        (chain-Accepts (blanks_one b'=' (b' ' ∷ c ∷ t) refl (omega arith))
          (match_text-Accepts fuel (codes "=") (b' ' ∷ c ∷ t) refl))
        (blanks_one c t e (omega arith))

  pub sep-Rejects :
      (c : ℕ) (t : List ℕ)
      → is_blank c ≡ false
      → c ≢ b'='
      → suc (length t) < fuel
      → Rejects fuel sep tt (c ∷ t)
  unfolding sep count_while
  sep-Rejects c t e n h = chain-Rejects_left (
      chain-Rejects_right (blanks_none c t e h)
        (match_text-Rejects fuel (codes "=") (c ∷ t) refl (λ u f. n (cc f))))

  pub sep-Rejects_end : 0 < fuel → Rejects fuel sep tt []
  unfolding sep count_while
  sep-Rejects_end h = chain-Rejects_left (
      chain-Rejects_right (many-Accepts (stop (parse_ws-Rejects_end fuel)) h)
        (match_text-Rejects fuel (codes "=") [] refl (λ u f. cc f)))

  -- The bytes of a name, up to the separator.
  pub letters-Loops :
      (k : List ℕ) (c : ℕ) (t : List ℕ)
      → IsName k
      → is_blank c ≡ false
      → length k + (4 + length t) < fuel
      → Loops fuel letter tt
          (k ++ (codes " = " ++ (c ∷ t)))
          (map (λ _. tt) k)
          (codes " = " ++ (c ∷ t))
  unfolding IsName
  letters-Loops [] c t n e h =
      stop (chain-Rejects_left (not_look_ahead-Rejects fuel (sep-Accepts c t e (omega arith))))
  letters-Loops (d ∷ k) c t n e h =
      let rest : List ℕ = k ++ (codes " = " ++ (c ∷ t)) in
      let size : length rest ≡ length k + (4 + length t) =
        length-append k (codes " = " ++ (c ∷ t)) ∙ omega arith in
      round
        (chain-Accepts (not_look_ahead-Accepts fuel (sep-Rejects d rest n.0 n.1 (omega arith)))
          (any-Accepts fuel d rest))
        (omega arith) (letters-Loops k c t n.2 e (omega arith))
