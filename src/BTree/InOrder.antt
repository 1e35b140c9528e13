-- ===== src/BTree/InOrder.antt =====
-- The operations of src/btree.hpp and the order of the nodes.
use corecommon.Common.{
  ℤ, pos, negsuc, ◌+ℤ◌, ◌-ℤ◌, ◌≤?ℤ◌, Bool, true, false, not, ◌&&◌, List, [], ◌∷◌, ◌++◌, ◌≡◌, refl,
  sym, ap, ◌∙◌, append_assoc, append-nil, if-cases,
}
use corecommon.BTree.Tree.{
  Tree, leaf, node, Frame, left_of, right_of, is_right, fill_frame, plug, entries,
}
use corecommon.BTree.Rotating.{
  rot_right, rot_left, has_diff, Round, stop, up, after_rotation, round_right, round_left, round,
  rebalance,
}

module _ {ℓ} {K V : Type ℓ} where
  -- The nodes before and behind a place.
  abbrev pub before : List (Frame K V) → List (K × V)
  before [] = []
  before (left_of d x v r ∷ p) = before p
  before (right_of d x v l ∷ p) = before p ++ (entries l ++ (x, v) ∷ [])

  abbrev pub behind : List (Frame K V) → List (K × V)
  behind [] = []
  behind (left_of d x v r ∷ p) = (x, v) ∷ entries r ++ behind p
  behind (right_of d x v l ∷ p) = behind p

  abbrev pub around : List (Frame K V) → List (K × V) → List (K × V)
  around p es = before p ++ (es ++ behind p)

  pub around-fill_frame :
      (f : Frame K V) (p : List (Frame K V)) (t : Tree K V)
      → around p (entries (fill_frame f t)) ≡ around (f ∷ p) (entries t)
  around-fill_frame (left_of d x v r) p t =
      ap (λ z. before p ++ z) (append_assoc (entries t) ((x, v) ∷ entries r) (behind p))
  around-fill_frame (right_of d x v l) p t =
      ap (λ z. before p ++ z) (append_assoc (entries l) ((x, v) ∷ entries t) (behind p))
      ∙ sym (
          append_assoc (before p) (entries l ++ (x, v) ∷ []) (entries t ++ behind p)
          ∙ ap (λ z. before p ++ z)
              (append_assoc (entries l) ((x, v) ∷ []) (entries t ++ behind p)))

  pub entries-plug :
      (p : List (Frame K V)) (t : Tree K V) → entries (plug p t) ≡ around p (entries t)
  entries-plug [] t = sym (append-nil (entries t))
  entries-plug (f ∷ p) t = entries-plug p (fill_frame f t) ∙ around-fill_frame f p t

  entries-rot_right : (t : Tree K V) → entries (rot_right t) ≡ entries t
  unfolding rot_right
  entries-rot_right leaf = refl
  entries-rot_right (node d x v l leaf) = refl
  entries-rot_right (node d x v l (node e y w b c)) =
      append_assoc (entries l) ((x, v) ∷ entries b) ((y, w) ∷ entries c)

  entries-rot_left : (t : Tree K V) → entries (rot_left t) ≡ entries t
  unfolding rot_left
  entries-rot_left leaf = refl
  entries-rot_left (node d x v leaf r) = refl
  entries-rot_left (node d x v (node e y w b c) r) =
      sym (append_assoc (entries b) ((y, w) ∷ entries c) ((x, v) ∷ entries r))

  -- The subtree that a round ends with.
  abbrev pub round_tree : Round K V → Tree K V
  round_tree (stop t) = t
  round_tree (up t next) = t

  entries-after_rotation :
      (grown : ℤ) (right rem : Bool) (t : Tree K V)
      → round_tree (after_rotation grown right rem t) ≡ t
  unfolding after_rotation
  entries-after_rotation grown right rem t =
      let P = λ (r : Round K V). round_tree r ≡ t in
      if-cases P (rem && not (has_diff grown t)) _ _ (λ _. refl)
        λ _. if-cases P (not rem && has_diff grown t) _ _ (λ _. refl) λ _. refl

  entries-round_right :
      (right rem : Bool) (t : Tree K V) → entries (round_tree (round_right right rem t)) ≡ entries t
  unfolding round_right
  entries-round_right right rem leaf = refl
  entries-round_right right rem (node d x v l r) =
      let P = λ (q : Round K V). entries (round_tree q) ≡ entries (node d x v l r) in
      if-cases P (pos 2 ≤?ℤ d) _ _
        (λ _.
          ap entries (entries-after_rotation (negsuc 0) right rem _)
          ∙ (entries-rot_right _
              ∙ ap (λ z. entries l ++ (x, v) ∷ z)
                  (if-cases (λ s. entries s ≡ entries r) (has_diff (negsuc 0) r) _ _
                    (λ _. entries-rot_left r) (λ _. refl))))
        λ _.
          if-cases P (not (d ≤?ℤ pos 0) && not rem) _ _ (λ _. refl)
            λ _. if-cases P (d ≤?ℤ pos 0 && rem) _ _ (λ _. refl) λ _. refl

  entries-round_left :
      (right rem : Bool) (t : Tree K V) → entries (round_tree (round_left right rem t)) ≡ entries t
  unfolding round_left
  entries-round_left right rem leaf = refl
  entries-round_left right rem (node d x v l r) =
      let P = λ (q : Round K V). entries (round_tree q) ≡ entries (node d x v l r) in
      if-cases P (d ≤?ℤ negsuc 1) _ _
        (λ _.
          ap entries (entries-after_rotation (pos 1) right rem _)
          ∙ (entries-rot_left _
              ∙ ap (λ z. z ++ (x, v) ∷ entries r)
                  (if-cases (λ s. entries s ≡ entries l) (has_diff (pos 1) l) _ _
                    (λ _. entries-rot_right l) (λ _. refl))))
        λ _.
          if-cases P (not (pos 0 ≤?ℤ d) && not rem) _ _ (λ _. refl)
            λ _. if-cases P (pos 0 ≤?ℤ d && rem) _ _ (λ _. refl) λ _. refl

  entries-round :
      (right r_inc rem : Bool) (t : Tree K V)
      → entries (round_tree (round right r_inc rem t)) ≡ entries t
  unfolding round
  entries-round right r_inc rem leaf = refl
  entries-round right true rem (node d x v l r) =
      entries-round_right right rem (node (d +ℤ pos 1) x v l r)
  entries-round right false rem (node d x v l r) =
      entries-round_left right rem (node (d -ℤ pos 1) x v l r)

  -- Rebalancing keeps the order.
  pub entries-rebalance :
      (p : List (Frame K V)) (t : Tree K V) (r_inc rem : Bool)
      → entries (rebalance p t r_inc rem) ≡ around p (entries t)
  unfolding rebalance
  entries-rebalance [] t r_inc rem = go (round false r_inc rem t) (entries-round false r_inc rem t)
    where
      go :
          (q : Round K V)
          → entries (round_tree q) ≡ entries t
          → entries (elim q [ stop t' ↦ t' | up t' next ↦ t' ]) ≡ entries t ++ []
      go (stop t') e = e ∙ sym (append-nil (entries t))
      go (up t' next) e = e ∙ sym (append-nil (entries t))
  entries-rebalance (f ∷ p) t r_inc rem =
      go (round (is_right (f ∷ p)) r_inc rem t) (λ t'. entries-rebalance p (fill_frame f t'))
        (entries-round (is_right (f ∷ p)) r_inc rem t)
    where
      go :
          (q : Round K V)
          → ((t' : Tree K V) (a b : Bool)
              → entries (rebalance p (fill_frame f t') a b) ≡ around p (entries (fill_frame f t')))
          → entries (round_tree q) ≡ entries t
          → entries (elim q [
            | stop t' ↦ plug (f ∷ p) t'
            | up t' next ↦ rebalance p (fill_frame f t') next rem
          ])
            ≡ around (f ∷ p) (entries t)
      go (stop t') ih e = entries-plug (f ∷ p) t' ∙ ap (around (f ∷ p)) e
      go (up t' next) ih e = ih t' next rem ∙ (around-fill_frame f p t' ∙ ap (around (f ∷ p)) e)
