-- ===== src/Parser/Endless.antt =====
-- What goes on for ever, and what the text read is.
use corecommon.Common.{ℕ, zero, suc, ◌^◌, ◌≤◌, ◌<◌, ◌≡◌, refl, true, false, none, some, arith, ltb}
use corecommon.Parser.State.{Parser}
use corecommon.Parser.Maps.{Run, many_loop, count_up}
use corecommon.Parser.Syntax.{ParseMap, many, run}

module _ {A B : Type 0} where
  many_loop-stuck :
      (fuel min max : ℕ) (kept : B → Unit {0}) (inner : Run A B) (n : ℕ) (p : Parser A)
      {q : Parser B}
      → inner p ≡ some q
      → q.err ≡ false
      → q.span ≡ p.span
      → 2 ^ 32 ≤ max
      → n < 2 ^ 32
      → many_loop fuel min max kept inner n p ≡ none
  unfolding many_loop
  many_loop-stuck zero min max kept inner n p {q} e f s h l = refl
  many_loop-stuck (suc fuel) min max kept inner n p {q} e f s h l =
      let lt : ltb n max ≡ true = ground arith in
      let again : many_loop fuel min max kept inner (count_up n) p ≡ none =
        many_loop-stuck fuel min max kept inner (count_up n) p e f s h (omega arith) in
      rw (lt, e, f, s) again

-- `Many` without a limit below 2 ^ 32 runs for ever where its inner map succeeds and reads nothing:
-- no number of rounds gives it a result. The counter is an `unsigned`, which never reaches the limit.
pub many-endless :
    (fuel min max : ℕ) {A B : Type 0} (kept : B → Unit {0}) (inner : ParseMap A B) (p : Parser A)
    {q : Parser B}
    → run fuel inner p ≡ some q
    → q.err ≡ false
    → q.span ≡ p.span
    → 2 ^ 32 ≤ max
    → run fuel (many min max kept inner) p ≡ none
unfolding run
many-endless fuel min max kept inner p e f s h =
    many_loop-stuck fuel min max kept (run fuel inner) 0 p e f s h (omega arith)
