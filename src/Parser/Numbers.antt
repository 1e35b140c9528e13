-- ===== src/Parser/Numbers.antt =====
-- A `long` is read by `ParseInt` of src/parser.hpp as a stream prints it.
use mathlib.Core.List.{append_cancel_left}
use corecommon.Common.{
  ℕ, zero, suc, ◌+◌, ◌-◌, ◌*◌, ◌/◌, ◌%◌, ◌^◌, ◌≤◌, ◌<◌, ◌≡◌, refl, sym, ap, ◌∙◌, Bool, true, false,
  ◌||◌, List, [], ◌∷◌, ◌++◌, append_assoc, arith, length, get_or, take, drop, ltb, ◌==◌,
  if◌then◌else◌, take-length_append, length-append, ℤ, pos, negsuc, if-cases,
}
use corecommon.Parser.Span.{
  count_while, is_space, is_digit, is_sign, digits_value, clamp_long, strtol, rest_of, ahead,
  advance,
}
use corecommon.Parser.State.{Parser, codes, decimal, decimal_loop}
use corecommon.Parser.Steps.{take_value, run_int}
use corecommon.Parser.Syntax.{parse_int, run}
use corecommon.Parser.Texts.{advance-Follows, Follows-IsInside}
use corecommon.Parser.Literal.{
  IsString, IsString-append, cons-IsString, rest_of-advance, ahead-rest_of,
}
use corecommon.Parser.Accepts.{Accepts}
use corecommon.Parser.Bytes.{left-length}

-- How a stream prints a `long`.
abbrev pub print_long : ℤ → List ℕ
print_long (pos n) = decimal n
print_long (negsuc n) = codes "-" ++ decimal (suc n)

-- The numbers of a `long` of 64 bits.
abbrev pub IsLong : ℤ → Type 0
IsLong (pos n) = n < 2 ^ 63
IsLong (negsuc n) = n < 2 ^ 63

IsDigits : List ℕ → Type 0
IsDigits [] = Unit
IsDigits (c ∷ cs) = (is_digit c ≡ true) × IsDigits cs

IsDigits-append : (xs ys : List ℕ) → IsDigits xs → IsDigits ys → IsDigits (xs ++ ys)
unfolding IsDigits
IsDigits-append [] ys h k = k
IsDigits-append (x ∷ xs) ys h k = (h.0, IsDigits-append xs ys h.1 k)

decimal_loop-IsDigits : (fuel n : ℕ) → IsDigits (decimal_loop fuel n)
unfolding decimal_loop IsDigits
decimal_loop-IsDigits zero n = tt
decimal_loop-IsDigits (suc fuel) n =
    let digit : is_digit (b'0' + n % 10) ≡ true = ground arith in
    if-cases IsDigits (ltb n 10) _ _ (λ e. (digit, tt))
      (λ e. IsDigits-append _ _ (decimal_loop-IsDigits fuel (n / 10)) (digit, tt))

digits_value-append :
    (xs : List ℕ) (a d : ℕ) → digits_value a (xs ++ d ∷ []) ≡ 10 * digits_value a xs + (d - b'0')
unfolding digits_value
digits_value-append [] a d = refl
digits_value-append (x ∷ xs) a d = digits_value-append xs _ d

digits_value_nil : digits_value 0 [] ≡ 0
unfolding digits_value
digits_value_nil = refl

digits_value-decimal : (fuel n : ℕ) → n < fuel → digits_value 0 (decimal_loop fuel n) ≡ n
unfolding decimal_loop
digits_value-decimal zero n h = absurd (omega arith)
digits_value-decimal (suc fuel) n h =
    if-cases (λ ds. digits_value 0 ds ≡ n) (ltb n 10) _ _
      (λ e.
        (let small : n < 10 = ground arith in
          digits_value-append [] 0 _ ∙ (rw digits_value_nil (omega arith))))
      (λ e.
        let below : n / 10 < fuel = ground arith in
        digits_value-append (decimal_loop fuel (n / 10)) 0 _
        ∙ omega (arith, digits_value-decimal fuel (n / 10) below))

length-decimal : (n : ℕ) → 1 ≤ length (decimal n)
unfolding decimal_loop
length-decimal n =
    let digit : ℕ = b'0' + n % 10 in
    if-cases (λ ds. 1 ≤ length ds) (ltb n 10) (digit ∷ []) (decimal_loop n (n / 10) ++ digit ∷ [])
      (λ e. omega arith) (λ e. omega (arith, length-append (decimal_loop n (n / 10)) (digit ∷ [])))

count_while-digits :
    (xs : List ℕ) (c : ℕ) (t : List ℕ)
    → IsDigits xs
    → is_digit c ≡ false
    → count_while is_digit (xs ++ c ∷ t) ≡ length xs
unfolding count_while IsDigits
count_while-digits [] c t h e = rw e refl
count_while-digits (x ∷ xs) c t h e = rw h.0 (ap suc (count_while-digits xs c t h.1 e))

digit-is_space : (c : ℕ) → is_digit c ≡ true → is_space c ≡ false
digit-is_space c e = ground arith

digit-is_sign : (c : ℕ) → is_digit c ≡ true → (is_sign c ≡ false) × ((c == b'-') ≡ false)
digit-is_sign c e = (ground arith, ground arith)

strtol_parts :
    (s : List ℕ) (blank signed count : ℕ)
    → count_while is_space s ≡ blank
    → (if is_sign (get_or (drop blank s) 0 0) then blank + 1 else blank) ≡ signed
    → count_while is_digit (drop signed s) ≡ suc count
    → strtol s ≡ (
      clamp_long
          (get_or (drop blank s) 0 0 == b'-')
          (digits_value 0 (take (suc count) (drop signed s))),
      signed + suc count,
    )
unfolding strtol
strtol_parts s blank signed count e f g =
    let some_digit : (suc count == 0) ≡ false = ground arith in
    rw e (rw f (rw g (rw some_digit refl)))

count_while-none : (p : ℕ → Bool) (c : ℕ) (s : List ℕ) → p c ≡ false → count_while p (c ∷ s) ≡ 0
unfolding count_while
count_while-none p c s e = rw e refl

-- `strtol` at a number without sign, and at one with a minus.
strtol-digits :
    (x : ℕ) (xs : List ℕ) (c : ℕ) (t : List ℕ)
    → IsDigits (x ∷ xs)
    → is_digit c ≡ false
    → strtol (x ∷ xs ++ c ∷ t) ≡ (clamp_long false (digits_value 0 (x ∷ xs)), suc (length xs))
unfolding IsDigits
strtol-digits x xs c t h e =
    let (unsigned, no_minus) = digit-is_sign x h.0 in
    strtol_parts (x ∷ xs ++ c ∷ t) 0 0 (length xs)
      (count_while-none is_space x _ (digit-is_space x h.0)) (rw unsigned refl)
      (count_while-digits (x ∷ xs) c t h e)
    ∙ rw (no_minus, take-length_append xs (c ∷ t))
        (ap (λ n. (clamp_long false (digits_value 0 (x ∷ xs)), n)) {x = 0 + suc (length xs)}
          (omega arith))

strtol-minus :
    (x : ℕ) (xs : List ℕ) (c : ℕ) (t : List ℕ)
    → IsDigits (x ∷ xs)
    → is_digit c ≡ false
    → strtol (b'-' ∷ x ∷ xs ++ c ∷ t)
      ≡ (clamp_long true (digits_value 0 (x ∷ xs)), 1 + suc (length xs))
unfolding count_while
strtol-minus x xs c t h e =
    strtol_parts (b'-' ∷ x ∷ xs ++ c ∷ t) 0 1 (length xs) refl refl
      (count_while-digits (x ∷ xs) c t h e)
    ∙ rw (take-length_append xs (c ∷ t)) refl

-- Behind its digits a number ends at any other byte, and is read as it is printed.
cons-of : (xs : List ℕ) → 1 ≤ length xs → (x : ℕ) × (ys : List ℕ) × (xs ≡ x ∷ ys)
cons-of [] h = absurd (omega arith)
cons-of (x ∷ xs) h = (x, xs, refl)

-- The digits of a number, of which there is at least one.
decimal-IsDigits :
    (n : ℕ)
    → (x : ℕ) × (xs : List ℕ) × (decimal n ≡ x ∷ xs)
      × IsDigits (x ∷ xs)
      × (digits_value 0 (x ∷ xs) ≡ n)
decimal-IsDigits n =
    let (x, xs, s) = cons-of (decimal n) (length-decimal n) in
    (
      x,
      xs,
      s,
      rw (← s) (decimal_loop-IsDigits (suc n) n),
      rw (← s) (digits_value-decimal (suc n) n (omega arith)),
    )

strtol-print_long :
    (z : ℤ) (c : ℕ) (t : List ℕ)
    → IsLong z
    → is_digit c ≡ false
    → strtol (print_long z ++ c ∷ t) ≡ (z, length (print_long z))
strtol-print_long (pos n) c t h e =
    let (x, xs, s, digits, number) = decimal-IsDigits n in
    let fits : ltb n (2 ^ 63) ≡ true = ground arith in
    rw s (strtol-digits x xs c t digits e ∙ rw number (rw fits refl))
strtol-print_long (negsuc n) c t h e =
    let (x, xs, s, digits, number) = decimal-IsDigits (suc n) in
    let fits : ltb (2 ^ 63) (suc n) ≡ false = ground arith in
    let some_number : (suc n == 0) ≡ false = ground arith in
    let less : suc n - 1 ≡ n = omega arith in
    let more : 1 + suc (length xs) ≡ suc (suc (length xs)) = omega arith in
    rw s
      (strtol-minus x xs c t digits e ∙ rw number (rw (some_number, fits) (rw (less, more) refl)))

length-print_long : (z : ℤ) → 1 ≤ length (print_long z)
length-print_long (pos n) = length-decimal n
length-print_long (negsuc n) = omega arith

take_value-moves :
    {A : Type 0} (p : Parser (Unit {0})) (value : A) (n : ℕ)
    → 1 ≤ n
    → ((take_value p (value, n)).err ≡ p.err)
      × ((take_value p (value, n)).res ≡ value)
      × ((take_value p (value, n)).span ≡ advance p.span n)
unfolding take_value advance
take_value-moves p value n h =
    let some_read : (n == 0) ≡ false = ground arith in
    (rw some_read refl, rw some_read refl, rw some_read refl)

-- `ParseInt` reads a `long` as it is printed, up to the next byte that is no digit.
pub parse_int-Accepts :
    (fuel : ℕ) (z : ℤ) (c : ℕ) (t : List ℕ)
    → IsLong z
    → is_digit c ≡ false
    → Accepts fuel parse_int tt (print_long z ++ c ∷ t) z (c ∷ t)
unfolding run run_int
parse_int-Accepts fuel z c t h e = record {
  gives = λ p k.
      let text : List ℕ = print_long z in
      let beyond : List ℕ = drop p.span.length (ahead p.span) in
      let whole : ahead p.span ≡ text ++ (c ∷ (t ++ beyond)) =
        sym (ahead-rest_of p.span)
        ∙ ap (λ x. x ++ beyond) k.left
        ∙ append_assoc text (c ∷ t) beyond in
      let le : length text ≤ p.span.length =
        omega (arith, left-length k, length-append text (c ∷ t)) in
      let (here, there) = rest_of-advance text (c ∷ (t ++ beyond)) k.inside le whole in
      let read : strtol (ahead p.span) ≡ (z, length text) =
        rw whole (strtol-print_long z c (t ++ beyond) h e) in
      let (ok, res, at) = take_value-moves p z (length text) (length-print_long z) in
      let after : take (p.span.length - length text) (c ∷ (t ++ beyond)) ≡ c ∷ t =
        append_cancel_left text _ _ (sym here ∙ k.left) in
      rw read (record {
        inside = rw at (Follows-IsInside (advance-Follows k.inside le) k.inside);
        ok = ok ∙ k.ok;
        res = res;
        left = ap rest_of at ∙ there ∙ after;
      });
}

-- A printed number begins with a minus or a digit.
pub print_long-cons :
    (z : ℤ) → (c : ℕ) × (u : List ℕ) × (print_long z ≡ c ∷ u) × ((c == b'-' || is_digit c) ≡ true)
unfolding IsDigits
print_long-cons (negsuc n) = (b'-', decimal (suc n), refl, refl)
print_long-cons (pos n) =
    let (x, xs, s, digits, _) = decimal-IsDigits n in (x, xs, s, ground (arith, digits.0))

digits-IsString : (xs : List ℕ) → IsDigits xs → IsString xs
unfolding IsDigits count_while
digits-IsString [] h = refl
digits-IsString (x ∷ xs) h = cons-IsString x xs (ground (arith, h.0)) (digits-IsString xs h.1)

pub print_long-IsString : (z : ℤ) → IsString (print_long z)
unfolding count_while
print_long-IsString (pos n) = digits-IsString (decimal n) (decimal_loop-IsDigits (suc n) n)
print_long-IsString (negsuc n) =
    IsString-append (codes "-") (decimal (suc n)) refl
      (digits-IsString (decimal (suc n)) (decimal_loop-IsDigits (suc (suc n)) (suc n)))
