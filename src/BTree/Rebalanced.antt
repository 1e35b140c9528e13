-- ===== src/BTree/Rebalanced.antt =====
-- `rebalance` of src/btree.hpp balances a tree in which one subtree has grown or shrunk by one.
use corecommon.Common.{ℕ, suc, ◌≤◌, max, ℤ, Bool, true, false, List, [], ◌∷◌, ◌≡◌, refl, sym, arith}
use mathlib.Core.Path.{subst}
use corecommon.BTree.Tree.{Tree, node, Frame, left_of, right_of, plug}
use corecommon.BTree.Rotating.{Round, stop, up, round, rebalance}
use corecommon.BTree.Balance.{IsDiff, height, IsAvl}
use corecommon.BTree.Rounds.{IsStale, EndsRound, round-EndsRound}

module _ {ℓ} {K V : Type ℓ} where
  -- A balanced tree but for a subtree, which is `h` high.
  abbrev pub FitsPath : List (Frame K V) → ℕ → Type 0
  FitsPath [] h = 0 ≤ 0
  FitsPath (left_of d x v r ∷ p) h =
      IsDiff d h (height r) × IsAvl r × FitsPath p (suc (max h (height r)))
  FitsPath (right_of d x v l ∷ p) h =
      IsDiff d (height l) h × IsAvl l × FitsPath p (suc (max (height l) h))

  pub plug-IsAvl :
      (p : List (Frame K V)) (t : Tree K V) → FitsPath p (height t) → IsAvl t → IsAvl (plug p t)
  plug-IsAvl [] t fits avl = avl
  plug-IsAvl (left_of d x v r ∷ p) t (diff, ar, fits) avl =
      plug-IsAvl p (node d x v t r) fits (diff, avl, ar)
  plug-IsAvl (right_of d x v l ∷ p) t (diff, al, fits) avl =
      plug-IsAvl p (node d x v l t) fits (diff, al, avl)

  -- A subtree of the height that the path expects.
  plug_same :
      (p : List (Frame K V)) (t : Tree K V) (h : ℕ)
      → FitsPath p h
      → IsAvl t
      → height t ≡ h
      → IsAvl (plug p t)
  plug_same p t h fits avl e = plug-IsAvl p t (subst (FitsPath p) (sym e) fits) avl

  -- `rebalance` from a node whose old children were `a` and `b` high.
  pub rebalance-IsAvl :
      (p : List (Frame K V)) (d : ℤ) (x : K) (v : V) (l r : Tree K V) (r_inc rem : Bool) (a b : ℕ)
      → IsDiff d a b
      → IsStale r_inc rem a b (height l) (height r)
      → IsAvl l
      → IsAvl r
      → FitsPath p (suc (max a b))
      → IsAvl (rebalance p (node d x v l r) r_inc rem)
  unfolding rebalance
  rebalance-IsAvl [] d x v l r r_inc rem a b diff stale al ar fits =
      go (round false r_inc rem (node d x v l r))
        (round-EndsRound false r_inc rem d x v l r a b diff stale al ar)
    where
      go :
          (q : Round K V)
          → EndsRound false rem (suc (max a b)) q
          → IsAvl (elim q [ stop t' ↦ t' | up t' next ↦ t' ])
      go (stop t') (avl, _) = avl
      go (up t' next) (avl, _, _) = avl
  rebalance-IsAvl (left_of e y w s ∷ p) d x v l r r_inc rem a b diff stale al ar
        (diff', avl_s, fits) =
      go rem (round false r_inc rem (node d x v l r))
        (λ t' next rem'. rebalance-IsAvl p e y w t' s next rem' (suc (max a b)) (height s) diff')
        (round-EndsRound false r_inc rem d x v l r a b diff stale al ar)
    where
      go :
          (rem : Bool) (q : Round K V)
          → ((t' : Tree K V) (next rem' : Bool)
              → IsStale next rem' (suc (max a b)) (height s) (height t') (height s)
              → IsAvl t'
              → IsAvl s
              → FitsPath p (suc (max (suc (max a b)) (height s)))
              → IsAvl (rebalance p (node e y w t' s) next rem'))
          → EndsRound false rem (suc (max a b)) q
          → IsAvl (elim q [
            | stop t' ↦ plug (left_of e y w s ∷ p) t'
            | up t' next ↦ rebalance p (node e y w t' s) next rem
          ])
      go rem (stop t') ih (avl, same) =
          plug_same (left_of e y w s ∷ p) t' (suc (max a b)) (diff', avl_s, fits) avl same
      go true (up t' true) ih (avl, changed, _) = ih t' true true (changed, refl) avl avl_s fits
      go true (up t' false) ih (avl, _, next) = absurd (ground (arith, next))
      go false (up t' false) ih (avl, changed, _) = ih t' false false (changed, refl) avl avl_s fits
      go false (up t' true) ih (avl, _, next) = absurd (ground (arith, next))
  rebalance-IsAvl (right_of e y w s ∷ p) d x v l r r_inc rem a b diff stale al ar
        (diff', avl_s, fits) =
      go rem (round true r_inc rem (node d x v l r))
        (λ t' next rem'. rebalance-IsAvl p e y w s t' next rem' (height s) (suc (max a b)) diff')
        (round-EndsRound true r_inc rem d x v l r a b diff stale al ar)
    where
      go :
          (rem : Bool) (q : Round K V)
          → ((t' : Tree K V) (next rem' : Bool)
              → IsStale next rem' (height s) (suc (max a b)) (height s) (height t')
              → IsAvl s
              → IsAvl t'
              → FitsPath p (suc (max (height s) (suc (max a b))))
              → IsAvl (rebalance p (node e y w s t') next rem'))
          → EndsRound true rem (suc (max a b)) q
          → IsAvl (elim q [
            | stop t' ↦ plug (right_of e y w s ∷ p) t'
            | up t' next ↦ rebalance p (node e y w s t') next rem
          ])
      go rem (stop t') ih (avl, same) =
          plug_same (right_of e y w s ∷ p) t' (suc (max a b)) (diff', avl_s, fits) avl same
      go true (up t' false) ih (avl, changed, _) = ih t' false true (refl, changed) avl_s avl fits
      go true (up t' true) ih (avl, _, next) = absurd (ground (arith, next))
      go false (up t' true) ih (avl, changed, _) = ih t' true false (refl, changed) avl_s avl fits
      go false (up t' false) ih (avl, _, next) = absurd (ground (arith, next))
