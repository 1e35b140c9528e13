-- ===== src/Parser/Loops.antt =====
-- The texts that `Many` and `Multiple` of src/parser.hpp accept.
use corecommon.Common.{
  ℕ, zero, suc, ◌^◌, ◌<◌, ◌≡◌, refl, sym, true, List, [], ◌∷◌, ◌++◌, append_assoc, append-nil,
  arith, length, ltb, Gives, Gives->>=, Gives-then, Gives-else, if-cases,
}
use corecommon.Parser.State.{Parser}
use corecommon.Parser.Maps.{many_loop, multiple_loop, run_multiple, count_up}
use corecommon.Parser.Syntax.{ParseMap, multiple, many, run, no_limit}
use corecommon.Parser.Accepts.{At, HasFailed, Accepts, Rejects}

-- The parser of the next round.
At-moved :
    {A B : Type 0} {a : A} {b : B} {s t : List ℕ} (p : Parser A) (q : Parser B)
    → At a s p
    → At b t q
    → At a t (record p { span = q.span })
At-moved p q h k = record { inside = k.inside; ok = h.ok; res = h.res; left = k.left }

under_limit : (i : ℕ) → i < 2 ^ 32 → ltb i no_limit ≡ true
under_limit i h = ground arith

module _ {A B : Type 0} (fuel : ℕ) (inner : ParseMap A B) (a : A) where
  -- The rounds of a loop from one text to another, with the results that they give.
  pub data Loops : List ℕ → List B → List ℕ → Type 0 where
    stop : {s : List ℕ} → Rejects fuel inner a s → Loops s [] s
    round :
        {s t u : List ℕ} {b : B} {bs : List B}
        → Accepts fuel inner a s b t
        → length t < length s
        → Loops t bs u
        → Loops s (b ∷ bs) u

module _ {A B : Type 0} {fuel : ℕ} {inner : ParseMap A B} {a : A} where
  many_loop-Loops :
      (n i : ℕ) (kept : B → Unit {0}) {s t : List ℕ} {bs : List B}
      → Loops fuel inner a s bs t
      → length s < n
      → i < 2 ^ 32
      → (p : Parser A) → At a s p
      → Gives (At tt t) (many_loop n 0 no_limit kept (run fuel inner) i p)
  unfolding many_loop
  many_loop-Loops zero i kept l h j p k = absurd (omega arith)
  many_loop-Loops (suc n) i kept {s} (stop r) h j p k = Gives-then (At tt s) _ _ (under_limit i j) (
      Gives->>= HasFailed (At tt s) _ _ (r.fails p k) λ q e. Gives-then (At tt s) _ _ e (
        if-cases (At tt s) (ltb i 0) _ _ (λ z. absurd (ground arith))
          (λ z. record { inside = k.inside; ok = refl; res = refl; left = k.left })))
  many_loop-Loops (suc n) i kept {t = u} (round {t = t} {b = b} f d l) h j p k =
      Gives-then (At tt u) _ _ (under_limit i j) (
        Gives->>= (At b t) (At tt u) _ _ (f.gives p k) λ q g. Gives-else (At tt u) _ _ g.ok (
          many_loop-Loops n (count_up i) kept l (omega arith) (omega arith)
            (record p { span = q.span }) (At-moved p q k g)))

  pub many-Accepts :
      {kept : B → Unit {0}} {s t : List ℕ} {bs : List B}
      → Loops fuel inner a s bs t
      → length s < fuel
      → Accepts fuel (many 0 no_limit kept inner) a s tt t
  unfolding run
  many-Accepts {kept} l h = record { gives = many_loop-Loops fuel 0 kept l h (omega arith) }

  multiple_loop-Loops :
      (n i : ℕ) (kept : B → List B) (vec : List B) {s t : List ℕ} {bs : List B}
      → Loops fuel inner a s bs t
      → length s < n
      → i < 2 ^ 32
      → (p : Parser A) → At a s p
      → Gives (At (vec ++ bs) t) (multiple_loop n 0 no_limit kept (run fuel inner) i vec p)
  unfolding multiple_loop
  multiple_loop-Loops zero i kept vec l h j p k = absurd (omega arith)
  multiple_loop-Loops (suc n) i kept vec {s} (stop r) h j p k =
      Gives-then (At (vec ++ []) s) _ _ (under_limit i j) (
        Gives->>= HasFailed (At (vec ++ []) s) _ _ (r.fails p k) λ q e.
          Gives-then (At (vec ++ []) s) _ _ e (
            if-cases (At (vec ++ []) s) (ltb i 0) _ _ (λ z. absurd (ground arith))
              (λ z. record {
                inside = k.inside;
                ok = refl;
                res = sym (append-nil vec);
                left = k.left;
              })))
  multiple_loop-Loops (suc n) i kept vec {t = u} {bs = b ∷ bs} (round {t = t} f d l) h j p k =
      Gives-then (At (vec ++ b ∷ bs) u) _ _ (under_limit i j) (
        Gives->>= (At b t) (At (vec ++ b ∷ bs) u) _ _ (f.gives p k) λ q g.
          Gives-else (At (vec ++ b ∷ bs) u) _ _ g.ok (
            rw (← append_assoc vec (b ∷ []) bs, ← g.res)
              (multiple_loop-Loops n (count_up i) kept (vec ++ q.res ∷ []) l (omega arith)
                (omega arith) (record p { span = q.span }) (At-moved p q k g))))

  pub multiple-Accepts :
      {default : B} {kept : B → List B} {s t : List ℕ} {bs : List B}
      → Loops fuel inner a s bs t
      → length s < fuel
      → Accepts fuel (multiple 0 no_limit default kept inner) a s bs t
  unfolding run run_multiple
  multiple-Accepts {kept = kept} l h = record {
    gives = multiple_loop-Loops fuel 0 kept [] l h (omega arith);
  }

-- A map that is tried once.
pub many_once-Accepts :
    {A B : Type 0} {fuel : ℕ} {inner : ParseMap A B} {a : A} {b : B} {s t : List ℕ}
    {kept : B → Unit {0}}
    → Accepts (suc (suc fuel)) inner a s b t
    → Accepts (suc (suc fuel)) (many 0 1 kept inner) a s tt t
unfolding run many_loop
many_once-Accepts {b = b} {t = t} f = record {
  gives = λ p h. Gives->>= (At b t) (At tt t) _ _ (f.gives p h) λ q g.
      Gives-else (At tt t) _ _ g.ok
        (record { inside = g.inside; ok = refl; res = refl; left = g.left });
}
