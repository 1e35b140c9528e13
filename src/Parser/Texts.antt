-- ===== src/Parser/Texts.antt =====
-- Facts about the string functions and about spans inside their text.
use corecommon.Common.{
  ℕ, zero, suc, ◌+◌, ◌-◌, ◌^◌, ◌≤◌, ◌<◌, ◌≡◌, refl, sym, Bool, true, List, [], ◌∷◌, arith, drop,
  ◌==◌, if◌then◌else◌, if-cases, get_or, ℤ, Bool-cases, inl, inr,
}
use corecommon.Parser.Span.{
  count_while, is_text, strlen, is_space, is_digit, is_sign, strtol, ParserSpan, advance,
}
use mathlib.Core.Bool.{true≢false}

-- The text that is left ends where the string does, and its length fits an `unsigned`.
pub record IsInside (s : ParserSpan) : Type 0 where
  pub to_end : s.text + s.length ≡ strlen s.start
  pub fits : strlen s.start < 2 ^ 32

-- A span later in the same text.
pub record Follows (s t : ParserSpan) : Type 0 where
  pub same_start : t.start ≡ s.start
  pub onward : s.text ≤ t.text
  pub same_end : t.text + t.length ≡ s.text + s.length

pub Follows-refl : (s : ParserSpan) → Follows s s
Follows-refl s = record { same_start = refl; onward = omega arith; same_end = refl }

pub Follows-trans : {s t u : ParserSpan} → Follows s t → Follows t u → Follows s u
Follows-trans f g = record {
  same_start = cc (f.same_start, g.same_start);
  onward = omega (arith, f.onward, g.onward);
  same_end = omega (arith, f.same_end, g.same_end);
}

pub Follows-IsInside : {s t : ParserSpan} → Follows s t → IsInside s → IsInside t
Follows-IsInside {s} {t} f i = record {
  to_end = rw f.same_start (omega (arith, f.same_end, i.to_end));
  fits = rw f.same_start i.fits;
}

pub advance-Follows : {s : ParserSpan} {n : ℕ} → IsInside s → n ≤ s.length → Follows s (advance s n)
unfolding advance
advance-Follows {s} {n} i h = record {
  same_start = refl;
  onward = omega arith;
  same_end = omega (arith, i.to_end, i.fits);
}

pub advance-length :
    {s : ParserSpan} {n : ℕ} → IsInside s → n ≤ s.length → (advance s n).length ≡ s.length - n
unfolding advance
advance-length {s} {n} i h = omega (arith, i.to_end, i.fits)

pub count_while_le :
    (p q : ℕ → Bool) (s : List ℕ)
    → ((c : ℕ) → p c ≡ true → q c ≡ true)
    → count_while p s ≤ count_while q s
unfolding count_while
count_while_le p q [] h = omega arith
count_while_le p q (c ∷ cs) h = elim (Bool-cases (p c)) [
  | inl t ↦ rw (t, h c t) (omega (arith, count_while_le p q cs h))
  | inr f ↦ rw f (omega arith)
]

pub count_while-drop :
    (p : ℕ → Bool) (k : ℕ) (s : List ℕ)
    → k ≤ count_while p s
    → k + count_while p (drop k s) ≡ count_while p s
unfolding count_while
count_while-drop p zero s h = omega arith
count_while-drop p (suc k) [] h = omega arith
count_while-drop p (suc k) (c ∷ cs) h = elim (Bool-cases (p c)) [
  | inl t ↦
      let h' : suc k ≤ suc (count_while p cs) = rw t at h in
      rw t (omega (arith, count_while-drop p k cs (omega (arith, h'))))
  | inr f ↦ let h' : suc k ≤ 0 = rw f at h in absurd (omega (arith, h'))
]

byte_within :
    (s : List ℕ) (k : ℕ) → k ≤ strlen s → is_text (get_or (drop k s) 0 0) ≡ true → k + 1 ≤ strlen s
unfolding count_while
byte_within [] zero h e = absurd (true≢false (sym e))
byte_within [] (suc k) h e = omega arith
byte_within (c ∷ cs) zero h e = rw e (omega arith)
byte_within (c ∷ cs) (suc k) h e = elim (Bool-cases (is_text c)) [
  | inl t ↦
      let h' : suc k ≤ suc (strlen cs) = rw t at h in
      rw t (omega (arith, byte_within cs k (omega (arith, h')) e))
  | inr f ↦ let h' : suc k ≤ 0 = rw f at h in absurd (omega (arith, h'))
]

is_space-is_text : (c : ℕ) → is_space c ≡ true → is_text c ≡ true
is_space-is_text c e = ground arith

is_digit-is_text : (c : ℕ) → is_digit c ≡ true → is_text c ≡ true
is_digit-is_text c e = ground arith

is_sign-is_text : (c : ℕ) → is_sign c ≡ true → is_text c ≡ true
is_sign-is_text c e = ground arith

-- `strtol` reads within its string.
pub strtol-le-strlen : (s : List ℕ) → (strtol s).1 ≤ strlen s
unfolding strtol
strtol-le-strlen s =
    let blank = count_while is_space s in
    let sign = get_or (drop blank s) 0 0 in
    let signed = if is_sign sign then blank + 1 else blank in
    let count = count_while is_digit (drop signed s) in
    let blank_le : blank ≤ strlen s = count_while_le is_space is_text s is_space-is_text in
    let signed_le : signed ≤ strlen s =
      if-cases (λ n. n ≤ strlen s) (is_sign sign) _ _
        (λ e. byte_within s blank blank_le (is_sign-is_text sign e)) (λ e. blank_le) in
    let count_le : count ≤ strlen (drop signed s) =
      count_while_le is_digit is_text (drop signed s) is_digit-is_text in
    if-cases {A = ℤ × ℕ} (λ r. r.1 ≤ strlen s) (count == 0) _ _ (λ e. omega arith)
      (λ e. omega (arith, count_le, count_while-drop is_text signed s signed_le))
