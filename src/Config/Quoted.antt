-- ===== src/Config/Quoted.antt =====
-- Quoted strings in the configuration files of src/config.cpp.
use corecommon.Common.{ℕ, ◌≡◌, ◌≢◌, refl, ap, false, not, none, some, List, ◌++◌, arith}
use corecommon.Parser.Span.{rest_of, count_while}
use corecommon.Parser.State.{Parser, codes}
use corecommon.Parser.Steps.{run_match, negate}
use corecommon.Parser.Maps.{run_chain, run_or, run_not, run_parse_string}
use corecommon.Parser.Syntax.{ParseMap, chain, any, or_else, not_map, match_text, run, no_limit}
use corecommon.Parser.Texts.{IsInside, Follows-IsInside}
use corecommon.Parser.Literal.{run_match-IsString, run_match-refused}
use corecommon.Parser.Advances.{run_match-Follows}
use corecommon.Parser.Endless.{many-endless}
use corecommon.Config.Format.{quoted_text, quoted}

-- A text whose first byte neither ends a quoted string nor escapes what comes after it.
abbrev pub IsOrdinary : List ℕ → Type 0
IsOrdinary text =
    ((tail : List ℕ) → text ≢ codes "\"" ++ tail) × ((tail : List ℕ) → text ≢ codes "\\" ++ tail)

abbrev body : ParseMap (Unit {0}) (Unit {0})
body = or_else (chain (λ _. tt) (match_text (codes "\\")) any) (not_map (match_text (codes "\"")))

body-stays :
    (fuel : ℕ) (p : Parser (Unit {0}))
    → IsInside p.span
    → p.err ≡ false
    → IsOrdinary (rest_of p.span)
    → (q : Parser (Unit {0})) × (run fuel body p ≡ some q) × (q.err ≡ false) × (q.span ≡ p.span)
unfolding run run_or run_chain run_not negate count_while
body-stays fuel p i ok h =
    let (escape, _) = run_match-refused (codes "\\") p refl i ok h.1 in
    let (quote, still) = run_match-refused (codes "\"") p refl i ok h.0 in
    (negate (run_match (codes "\"") p), rw escape refl, ap not quote, still)

quoted_text-endless :
    (fuel : ℕ) (p : Parser (Unit {0}))
    → IsInside p.span
    → p.err ≡ false
    → IsOrdinary (rest_of p.span)
    → run fuel quoted_text p ≡ none
unfolding quoted_text
quoted_text-endless fuel p i ok h =
    let (q, r, o, s) = body-stays fuel p i ok h in
    many-endless fuel 0 no_limit (λ _. tt) body p r o s (omega arith)

-- A quoted string whose first byte is neither a quote nor a backslash does not parse: `Config::parse`
-- never gets past it, whatever the fuel. The hypotheses: the parser stands at the quote, inside its
-- text, and has not failed.
pub quoted-endless :
    (fuel : ℕ) (p : Parser (Unit {0})) (text : List ℕ)
    → IsInside p.span
    → p.err ≡ false
    → rest_of p.span ≡ codes "\"" ++ text
    → IsOrdinary text
    → run fuel quoted p ≡ none
unfolding quoted run run_chain run_parse_string count_while
quoted-endless fuel p text i ok at h =
    let (begun, left) = (run_match-IsString (codes "\"") p refl i ok).0 text at in
    let q : Parser (Unit {0}) = run_match (codes "\"") p in
    let j : IsInside q.span = Follows-IsInside (run_match-Follows (codes "\"") p i) i in
    let stuck : run fuel quoted_text q ≡ none = quoted_text-endless fuel q j begun (rw left h) in
    rw (stuck, begun) refl
