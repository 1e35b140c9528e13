-- ===== src/Parser/Accepts.antt =====
-- Parsers of src/parser.hpp by the texts that they accept: where each map accepts a text, what it
-- gives and what it leaves.
use mathlib.Core.Bool.{true≢false}
use corecommon.Common.{
  ℕ, ◌≡◌, refl, sym, ap, ◌∙◌, true, false, List, Gives, Gives->>=, Gives-then, Gives-else, if-cases,
}
use corecommon.Parser.Span.{rest_of}
use corecommon.Parser.State.{Parser, with_res}
use corecommon.Parser.Steps.{run_result_map, run_ignore}
use corecommon.Parser.Maps.{run_chain, run_tuple_map, run_tuple_one, run_or, run_skip}
use corecommon.Parser.Syntax.{
  ParseMap, result_map, ignore, tuple_map, tuple_one, chain, skip, or_else, run,
}
use corecommon.Parser.Texts.{IsInside}

-- A parser that has not failed, holds a and has s left to read.
pub record At {A : Type 0} (a : A) (s : List ℕ) (p : Parser A) : Type 0 where
  pub inside : IsInside p.span
  pub ok : p.err ≡ false
  pub res : p.res ≡ a
  pub left : rest_of p.span ≡ s

abbrev pub HasFailed : {A : Type 0} → Parser A → Type 0
HasFailed p = p.err ≡ true

-- From a with the text s the map comes to b with the text t.
pub record Accepts {A B : Type 0} (fuel : ℕ) (m : ParseMap A B) (a : A) (s : List ℕ) (b : B)
    (t : List ℕ) : Type 0 where
  pub gives : (p : Parser A) → At a s p → Gives (At b t) (run fuel m p)

-- From a with the text s the map fails.
pub record Rejects {A B : Type 0} (fuel : ℕ) (m : ParseMap A B) (a : A) (s : List ℕ) : Type 0 where
  pub fails : (p : Parser A) → At a s p → Gives HasFailed (run fuel m p)

At-with_res :
    {A B : Type 0} {a : A} {s : List ℕ} (p : Parser A) (b : B) → At a s p → At b s (with_res p b)
At-with_res p b h = record { inside = h.inside; ok = refl; res = refl; left = h.left }

module _ {A B C : Type 0} {fuel : ℕ} {a : A} {s : List ℕ} {b : B} {t : List ℕ} {l : ParseMap A B}
    {r : ParseMap B C} {kept : B → C} where
  pub chain-Accepts :
      {c : C} {u : List ℕ}
      → Accepts fuel l a s b t
      → Accepts fuel r b t c u
      → Accepts fuel (chain kept l r) a s c u
  unfolding run run_chain
  chain-Accepts {c} {u} f g = record {
    gives = λ p h.
        Gives->>= (At b t) (At c u) _ _ (f.gives p h)
          λ q k. Gives-else (At c u) _ _ k.ok (g.gives q k);
  }

  pub chain-Rejects_right :
      Accepts fuel l a s b t → Rejects fuel r b t → Rejects fuel (chain kept l r) a s
  unfolding run run_chain
  chain-Rejects_right f g = record {
    fails = λ p h.
        Gives->>= (At b t) HasFailed _ _ (f.gives p h)
          λ q k. Gives-else HasFailed _ _ k.ok (g.fails q k);
  }

module _ {A B C : Type 0} {fuel : ℕ} {a : A} {s : List ℕ} {l : ParseMap A B}
    {r : ParseMap B C} where
  pub chain-Rejects_left : {kept : B → C} → Rejects fuel l a s → Rejects fuel (chain kept l r) a s
  unfolding run run_chain
  chain-Rejects_left f = record {
    fails =
        λ p h. Gives->>= HasFailed HasFailed _ _ (f.fails p h) λ q e. Gives-then HasFailed _ _ e e;
  }

  pub tuple_map-Accepts :
      {b : B} {t : List ℕ} {c : C} {u : List ℕ} {kept : B → B × C} {kept_rest : C → B × C}
      → Accepts fuel l a s b t
      → Accepts fuel r b t c u
      → Accepts fuel (tuple_map kept kept_rest l r) a s (b, c) u
  unfolding run run_tuple_map
  tuple_map-Accepts {b} {t} {c} {u} f g = record {
    gives = λ p h. Gives->>= (At b t) (At (b, c) u) _ _ (f.gives p h) λ q k.
        Gives-else (At (b, c) u) _ _ k.ok (
          Gives->>= (At c u) (At (b, c) u) _ _ (g.gives q k) λ r j.
            Gives-else (At (b, c) u) _ _ j.ok
              (record { inside = j.inside; ok = refl; res = cc (k.res, j.res); left = j.left }));
  }

  pub tuple_map-Rejects :
      {kept : B → B × C} {kept_rest : C → B × C}
      → Rejects fuel l a s
      → Rejects fuel (tuple_map kept kept_rest l r) a s
  unfolding run run_tuple_map
  tuple_map-Rejects f = record {
    fails =
        λ p h. Gives->>= HasFailed HasFailed _ _ (f.fails p h) λ q e. Gives-then HasFailed _ _ e e;
  }

module _ {A B : Type 0} {fuel : ℕ} {a : A} {s : List ℕ} {b : B} {t : List ℕ} where
  pub tuple_one-Accepts :
      {m : ParseMap A B} → Accepts fuel m a s b t → Accepts fuel (tuple_one m) a s (b, tt) t
  unfolding run run_tuple_one
  tuple_one-Accepts f = record {
    gives = λ p h. Gives->>= (At b t) (At (b, tt) t) _ _ (f.gives p h) λ q k.
        Gives-else (At (b, tt) t) _ _ k.ok
          (record { inside = k.inside; ok = refl; res = cc (k.res); left = k.left });
  }

  pub or_else-Accepts_left :
      {l r : ParseMap A B} → Accepts fuel l a s b t → Accepts fuel (or_else l r) a s b t
  unfolding run run_or
  or_else-Accepts_left f = record {
    gives =
        λ p h. Gives->>= (At b t) (At b t) _ _ (f.gives p h) λ q k. Gives-else (At b t) _ _ k.ok k;
  }

  pub or_else-Accepts_right :
      {l r : ParseMap A B}
      → Rejects fuel l a s
      → Accepts fuel r a s b t
      → Accepts fuel (or_else l r) a s b t
  unfolding run run_or
  or_else-Accepts_right f g = record {
    gives = λ p h.
        Gives->>= HasFailed (At b t) _ _ (f.fails p h)
          λ q e. Gives-then (At b t) _ _ e (g.gives p h);
  }

module _ {A : Type 0} {fuel : ℕ} {a : A} {s : List ℕ} where
  pub or_else-Rejects :
      {B : Type 0} {l r : ParseMap A B}
      → Rejects fuel l a s
      → Rejects fuel r a s
      → Rejects fuel (or_else l r) a s
  unfolding run run_or
  or_else-Rejects f g = record {
    fails = λ p h.
        Gives->>= HasFailed HasFailed _ _ (f.fails p h)
          λ q e. Gives-then HasFailed _ _ e (g.fails p h);
  }

  pub result_map-Accepts : {B : Type 0} {f : A → B} → Accepts fuel (result_map f) a s (f a) s
  unfolding run run_result_map
  result_map-Accepts {B} {f} = record {
    gives = λ p h. record { inside = h.inside; ok = refl; res = ap f h.res; left = h.left };
  }

  pub ignore-Accepts : Accepts fuel (ignore {A = A}) a s tt s
  unfolding run run_ignore
  ignore-Accepts = record {
    gives = λ p h. record { inside = h.inside; ok = h.ok; res = refl; left = h.left };
  }

  -- After a skipped text, the result is what it was.
  pub skip-Accepts :
      {t : List ℕ} {kept : Unit {0} → A} {m : ParseMap (Unit {0}) (Unit {0})}
      → Accepts fuel m tt s tt t
      → Accepts fuel (skip kept m) a s a t
  unfolding run run_skip
  skip-Accepts {t} f = record {
    gives = λ p h.
        Gives->>= (At tt t) (At a t) _ _ (f.gives (with_res p tt) (At-with_res p tt h)) λ q k.
          if-cases (At a t) q.err _ _ (λ e. absurd (true≢false (sym e ∙ k.ok)))
            (λ e. record { inside = k.inside; ok = refl; res = h.res; left = k.left });
  }

  pub skip-Rejects :
      {kept : Unit {0} → A} {m : ParseMap (Unit {0}) (Unit {0})}
      → Rejects fuel m tt s
      → Rejects fuel (skip kept m) a s
  unfolding run run_skip
  skip-Rejects f = record {
    fails = λ p h.
        Gives->>= HasFailed HasFailed _ _ (f.fails (with_res p tt) (At-with_res p tt h))
          λ q e. if-cases HasFailed q.err _ _ (λ t. e) (λ o. absurd (true≢false (sym e ∙ o)));
  }
