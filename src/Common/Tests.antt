-- ===== src/Common/Tests.antt =====
-- Boolean tests on the native numbers, the conditional, and case splits that keep the equation.
use Prim.Native.Nat.{ℕ, zero, suc, ◌<◌, compare, Ordering}
use mathlib.Core.Path.{◌≡◌, refl}
use mathlib.Core.Logic.{◌↔◌, ◌⊎◌, inl, inr}
use mathlib.Core.Bool.{Bool, true, false}
use mathlib.Core.Option.{Option, none, some}
use native.Mathlib.Omega.{arith}

abbrev pub ltb : ℕ → ℕ → Bool
ltb a b = elim (compare a b) [ Ordering.lt ↦ true | _ ↦ false ]

abbrev pub leb : ℕ → ℕ → Bool
leb a b = elim (compare a b) [ Ordering.gt ↦ false | _ ↦ true ]

infix 50 ◌==◌
abbrev pub ◌==◌ : ℕ → ℕ → Bool
a == b = elim (compare a b) [ Ordering.eq ↦ true | _ ↦ false ]

infix 1 if◌then◌else◌
abbrev pub if◌then◌else◌ {ℓ} : {A : Type ℓ} → Bool → A → A → A
if true then x else y = x
if false then x else y = y

pub ==_iff : (a b : ℕ) → ((a == b) ≡ true) ↔ (a ≡ b)
==_iff a b = ground arith

pub Bool-cases : (b : Bool) → (b ≡ true) ⊎ (b ≡ false)
Bool-cases true = inl refl
Bool-cases false = inr refl

pub if-cases {ℓ κ} :
    {A : Type ℓ} (P : A → Type κ) (b : Bool) (x y : A)
    → (b ≡ true → P x)
    → (b ≡ false → P y)
    → P (if b then x else y)
if-cases P true x y f g = f refl
if-cases P false x y f g = g refl

pub Option-cases {ℓ} : {A : Type ℓ} (o : Option A) → (o ≡ none) ⊎ ((a : A) × (o ≡ some a))
Option-cases none = inl refl
Option-cases (some a) = inr (a, refl)

-- A finite table: `every p n` tests `p` at n - 1, ..., 1, 0.
unfoldable pub every : (ℕ → Bool) → ℕ → Bool
every p zero = true
every p (suc n) = if p n then every p n else false

pub every-at : (p : ℕ → Bool) (n i : ℕ) → every p n ≡ true → i < n → p i ≡ true
unfolding every
every-at p zero i t below = elim below [ ]
every-at p (suc n) i t below = elim (Bool-cases (p n)) [
  | inl passed ↦ ground (arith, every-at p n i)
  | inr failed ↦ absurd (ground arith)
]

-- Runs that may not end, or that read what is not there: `none` stops the chain.
infixl 5 ◌>>=◌
abbrev pub ◌>>=◌ {ℓ κ} : {A : Type ℓ} {B : Type κ} → Option A → (A → Option B) → Option B
none >>= f = none
some a >>= f = f a

pub >>=-eq-some {ℓ κ} :
    {A : Type ℓ} {B : Type κ} (m : Option A) (f : A → Option B) {b : B}
    → (m >>= f) ≡ some b
    → (a : A) × (m ≡ some a) × (f a ≡ some b)
>>=-eq-some none f h = cc
>>=-eq-some (some a) f h = (a, refl, h)

-- What holds of the outcome of a run, if there is one.
abbrev pub After {ℓ κ} : {A : Type ℓ} → (A → Type κ) → Option A → Type κ
After P none = Unit
After P (some a) = P a

pub After->>= {ℓ κ μ ν} :
    {A : Type ℓ} {B : Type κ} (P : A → Type μ) (Q : B → Type ν) (m : Option A) (f : A → Option B)
    → After P m
    → ((a : A) → P a → After Q (f a))
    → After Q (m >>= f)
After->>= P Q none f h g = tt
After->>= P Q (some a) f h g = g a h

pub After-if {ℓ κ} :
    {A : Type ℓ} (P : A → Type κ) (b : Bool) (m n : Option A)
    → (b ≡ true → After P m)
    → (b ≡ false → After P n)
    → After P (if b then m else n)
After-if P true m n h k = h refl
After-if P false m n h k = k refl

pub After-imp {ℓ κ μ} :
    {A : Type ℓ} (P : A → Type κ) (Q : A → Type μ) (m : Option A)
    → ((a : A) → P a → Q a)
    → After P m
    → After Q m
After-imp P Q none h k = tt
After-imp P Q (some a) h k = h a k

pub After-some {ℓ κ} :
    {A : Type ℓ} (P : A → Type κ) {m : Option A} {a : A} → After P m → m ≡ some a → P a
After-some P {m} {a} h e = rw e at h

pub After-both {ℓ κ μ} :
    {A : Type ℓ} (P : A → Type κ) (Q : A → Type μ) (m : Option A)
    → After P m
    → After Q m
    → After (λ a. P a × Q a) m
After-both P Q none h k = tt
After-both P Q (some a) h k = (h, k)

-- A run that has an outcome, and what holds of it.
abbrev pub Gives {ℓ} : {A : Type ℓ} → (A → Type 0) → Option A → Type 0
Gives P none = ⊥
Gives P (some a) = P a

pub Gives->>= {ℓ κ} :
    {A : Type ℓ} {B : Type κ} (P : A → Type 0) (Q : B → Type 0) (m : Option A) (f : A → Option B)
    → Gives P m
    → ((a : A) → P a → Gives Q (f a))
    → Gives Q (m >>= f)
Gives->>= P Q none f h g = absurd h
Gives->>= P Q (some a) f h g = g a h

pub Gives-if {ℓ} :
    {A : Type ℓ} (P : A → Type 0) (b : Bool) (m n : Option A)
    → (b ≡ true → Gives P m)
    → (b ≡ false → Gives P n)
    → Gives P (if b then m else n)
Gives-if P true m n h k = h refl
Gives-if P false m n h k = k refl

pub Gives-After {ℓ} :
    {A : Type ℓ} (P : A → Type 0) (Q : A → Type 0) (m : Option A)
    → Gives P m
    → After Q m
    → Gives Q m
Gives-After P Q none h k = absurd h
Gives-After P Q (some a) h k = k

pub Gives-some {ℓ} :
    {A : Type ℓ} (P : A → Type 0) (m : Option A) → Gives P m → (a : A) × (m ≡ some a)
Gives-some P none h = absurd h
Gives-some P (some a) h = (a, refl)

abbrev pub Returns {ℓ} : {A : Type ℓ} → Option A → Type 0
Returns m = Gives (λ _. Unit) m

pub Gives-Returns {ℓ} : {A : Type ℓ} (P : A → Type 0) (m : Option A) → Gives P m → Returns m
Gives-Returns P none h = absurd h
Gives-Returns P (some a) h = tt

pub Gives-then {ℓ} :
    {A : Type ℓ} (P : A → Type 0) {b : Bool} (m n : Option A)
    → b ≡ true
    → Gives P m
    → Gives P (if b then m else n)
Gives-then P m n e h = rw e h

pub Gives-else {ℓ} :
    {A : Type ℓ} (P : A → Type 0) {b : Bool} (m n : Option A)
    → b ≡ false
    → Gives P n
    → Gives P (if b then m else n)
Gives-else P m n e h = rw e h

pub Gives-both {ℓ} :
    {A : Type ℓ} (P : A → Type 0) (Q : A → Type 0) (m : Option A)
    → Gives P m
    → After Q m
    → Gives (λ a. P a × Q a) m
Gives-both P Q none h k = absurd h
Gives-both P Q (some a) h k = (h, k)

pub Gives-outcome {ℓ} :
    {A : Type ℓ} (P : A → Type 0) (m : Option A) → Gives P m → (a : A) × (m ≡ some a) × P a
Gives-outcome P none h = absurd h
Gives-outcome P (some a) h = (a, refl, h)
