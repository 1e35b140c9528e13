-- ===== src/BTree/Sorted.antt =====
-- Lists of nodes in the order of their keys.
use corecommon.Common.{◌≤◌, true, false, List, [], ◌∷◌, ◌++◌, ◌≡◌, arith, Bool-cases, inl, inr}
use corecommon.BTree.Tree.{Compare}

pub asym {ℓ} :
    {K : Type ℓ} ⦃compare : Compare K⦄ (a b : K)
    → compare.less a b ≡ true
    → compare.less b a ≡ false
asym ⦃compare⦄ a b lt = elim (Bool-cases (compare.less b a)) [
  | inl gt ↦ absurd (ground (arith, compare.trans a b a lt gt, compare.irrefl a))
  | inr e ↦ e
]

module _ {ℓ} {K V : Type ℓ} ⦃compare : Compare K⦄ where
  -- No key above `k`.
  abbrev pub AllBelow : K → List (K × V) → Type 0
  AllBelow k [] = 0 ≤ 0
  AllBelow k ((x, v) ∷ es) = (compare.less k x ≡ false) × AllBelow k es

  -- No key below `k`.
  abbrev pub AllAbove : K → List (K × V) → Type 0
  AllAbove k [] = 0 ≤ 0
  AllAbove k ((x, v) ∷ es) = (compare.less x k ≡ false) × AllAbove k es

  abbrev pub IsSorted : List (K × V) → Type 0
  IsSorted [] = 0 ≤ 0
  IsSorted ((x, v) ∷ es) = AllAbove x es × IsSorted es

  pub AllBelow-append :
      (k : K) (xs ys : List (K × V)) → AllBelow k xs → AllBelow k ys → AllBelow k (xs ++ ys)
  AllBelow-append k [] ys a b = b
  AllBelow-append k ((x, v) ∷ xs) ys (h, a) b = (h, AllBelow-append k xs ys a b)

  pub AllAbove-append :
      (k : K) (xs ys : List (K × V)) → AllAbove k xs → AllAbove k ys → AllAbove k (xs ++ ys)
  AllAbove-append k [] ys a b = b
  AllAbove-append k ((x, v) ∷ xs) ys (h, a) b = (h, AllAbove-append k xs ys a b)

  pub AllBelow-split :
      (k : K) (xs ys : List (K × V)) → AllBelow k (xs ++ ys) → AllBelow k xs × AllBelow k ys
  AllBelow-split k [] ys a = (omega arith, a)
  AllBelow-split k ((x, v) ∷ xs) ys (h, a) = let (b, c) = AllBelow-split k xs ys a in ((h, b), c)

  pub AllAbove-split :
      (k : K) (xs ys : List (K × V)) → AllAbove k (xs ++ ys) → AllAbove k xs × AllAbove k ys
  AllAbove-split k [] ys a = (omega arith, a)
  AllAbove-split k ((x, v) ∷ xs) ys (h, a) = let (b, c) = AllAbove-split k xs ys a in ((h, b), c)

  -- From a key to one that is not below it.
  pub AllBelow-mono :
      (j k : K) (es : List (K × V)) → compare.less k j ≡ false → AllBelow j es → AllBelow k es
  AllBelow-mono j k [] le a = a
  AllBelow-mono j k ((x, v) ∷ es) le (h, a) = (compare.total k j x le h, AllBelow-mono j k es le a)

  pub AllAbove-mono :
      (j k : K) (es : List (K × V)) → compare.less j k ≡ false → AllAbove j es → AllAbove k es
  AllAbove-mono j k [] le a = a
  AllAbove-mono j k ((x, v) ∷ es) le (h, a) = (compare.total x j k h le, AllAbove-mono j k es le a)

  -- Around a node of a sorted list.
  pub IsSorted-split :
      (xs : List (K × V)) (x : K) (v : V) (ys : List (K × V))
      → IsSorted (xs ++ (x, v) ∷ ys)
      → IsSorted xs × AllBelow x xs × AllAbove x ys × IsSorted ys
  IsSorted-split [] x v ys (above, s) = (omega arith, omega arith, above, s)
  IsSorted-split ((y, w) ∷ xs) x v ys (above, s) =
      let (sx, bx, ax, sy) = IsSorted-split xs x v ys s in
      let (ay, (h, _)) = AllAbove-split y xs ((x, v) ∷ ys) above in ((ay, sx), (h, bx), ax, sy)

  pub IsSorted-insert :
      (xs ys : List (K × V)) (k : K) (v : V)
      → IsSorted (xs ++ ys)
      → AllBelow k xs
      → AllAbove k ys
      → IsSorted (xs ++ (k, v) ∷ ys)
  IsSorted-insert [] ys k v s below above = (above, s)
  IsSorted-insert ((x, w) ∷ xs) ys k v (a, s) (h, below) above =
      let (ax, ay) = AllAbove-split x xs ys a in
      (AllAbove-append x xs ((k, v) ∷ ys) ax (h, ay), IsSorted-insert xs ys k v s below above)

  pub IsSorted-delete :
      (xs : List (K × V)) (e : K × V) (ys : List (K × V))
      → IsSorted (xs ++ e ∷ ys)
      → IsSorted (xs ++ ys)
  IsSorted-delete [] (x, v) ys (_, s) = s
  IsSorted-delete ((x, w) ∷ xs) (y, v) ys (a, s) =
      let (ax, (_, ay)) = AllAbove-split x xs ((y, v) ∷ ys) a in
      (AllAbove-append x xs ys ax ay, IsSorted-delete xs (y, v) ys s)
