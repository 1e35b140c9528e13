-- ===== src/Template/Quote.antt =====
-- How to write a text so that `template_new` of src/template.c reads it as it is.
use corecommon.Common.{
  ℕ, zero, suc, ◌+◌, ◌-◌, ◌≤◌, ◌<◌, ◌≡◌, ◌≢◌, refl, sym, ap, ◌∙◌, Bool, true, false, List, [], ◌∷◌,
  ◌++◌, length, drop, get_or, get_or-drop, drop-drop, append_assoc, append-nil, ◌==◌, ltb, ◌&&◌,
  if◌then◌else◌, arith, if-cases, Bool-cases, inl, inr,
}
use corecommon.Template.Tree.{template, none_left}
use corecommon.Template.Parsing.{
  char_at, State, start, finish, again, step, Parse, parsed, parse_loop, template_new,
}

-- A percent sign is doubled; behind `!` it is written `!%`.
abbrev pub quote : (after : Bool) → List ℕ → List ℕ
quote after [] = []
quote after (c ∷ cs) =
    if c == b'%'
    then (if after then b'!' else b'%') ∷ b'%' ∷ quote false cs
    else c ∷ quote (c == b'!') cs

-- A C string.
abbrev pub IsText : List ℕ → Type 0
IsText [] = 0 ≤ 0
IsText (c ∷ cs) = (c ≢ 0) × IsText cs

quote-true : (cs : List ℕ) → get_or (quote true cs) 0 0 ≢ b'%'
quote-true [] = λ e. omega (arith, e)
quote-true (c ∷ cs) =
    if-cases (λ q. get_or q 0 0 ≢ b'%') (c == b'%') _ _ (λ _ e. omega (arith, e))
      (λ d e. ground (arith, d, e))

-- The text from a place on, where the quoted text stands there.
module _ (text : List ℕ) (at : ℕ) where
  head_char : {c : ℕ} {q : List ℕ} → drop at text ≡ c ∷ q → char_at text at ≡ c
  head_char e =
      ap (λ i. char_at text i) (omega arith)
      ∙ (sym (get_or-drop at 0 text 0) ∙ ap (λ q. get_or q 0 0) e)

  next_char : {c : ℕ} {q : List ℕ} → drop at text ≡ c ∷ q → char_at text (at + 1) ≡ get_or q 0 0
  next_char e = sym (get_or-drop at 1 text 0) ∙ ap (λ q. get_or q 1 0) e

  past_one : {c : ℕ} {q : List ℕ} → drop at text ≡ c ∷ q → drop (at + 1) text ≡ q
  past_one e = drop-drop at 1 text ∙ ap (drop 1) e

  past_two : {c d : ℕ} {q : List ℕ} → drop at text ≡ c ∷ d ∷ q → drop (at + 2) text ≡ q
  past_two e = drop-drop at 2 text ∙ ap (drop 2) e

step-end : (text : List ℕ) (st : State) → char_at text st.read ≡ 0 → step text st ≡ finish st
unfolding step
step-end text st e = rw (e) refl

step-plain :
    (text : List ℕ) (st : State) (c : ℕ)
    → char_at text st.read ≡ c
    → c ≢ 0
    → (c == b'%') ≡ false
    → ((c == b'!') ≡ true → char_at text (st.read + 1) ≢ b'%')
    → step text st ≡ again (record st { read = st.read + 1; str = st.str ++ c ∷ [] })
unfolding step
step-plain text st c e more plain opens = rw (e, zero_no, opens_no, plain) refl
  where
    zero_no : (c == 0) ≡ false
    zero_no = ground (arith, more)

    opens_no : (c == b'!' && char_at text (st.read + 1) == b'%') ≡ false
    opens_no = elim (Bool-cases (c == b'!')) [
      | inl y ↦ (let o = opens y in ground (arith, o, y))
      | inr n ↦ ground (arith, n)
    ]

step-percent :
    (text : List ℕ) (st : State)
    → char_at text st.read ≡ b'%'
    → char_at text (st.read + 1) ≡ b'%'
    → step text st ≡ again (record st { read = st.read + 2; str = st.str ++ b'%' ∷ [] })
unfolding step
step-percent text st e f = rw (e, f) refl

step-kept :
    (text : List ℕ) (st : State)
    → char_at text st.read ≡ b'!'
    → char_at text (st.read + 1) ≡ b'%'
    → 0 < st.read
    → char_at text (st.read - 1) ≡ b'!'
    → step text st ≡ again (record st { read = st.read + 2; str = st.str ++ b'%' ∷ [] })
unfolding step
step-kept text st e f pos g = rw (e, f, g, positive) refl
  where
    positive : ltb 0 st.read ≡ true
    positive = ground (arith, pos)

-- The character before the cursor is `!`.
abbrev IsAfter : List ℕ → ℕ → Bool → Type 0
IsAfter text at true = (0 < at) × (char_at text (at - 1) ≡ b'!')
IsAfter text at false = 0 ≤ at

-- Where the loop stands when it has written `str` of a quoted text.
abbrev reading : ℕ → List ℕ → State
reading at str = record start { read = at; str = str }

abbrev plain_template : List ℕ → Parse
plain_template str = parsed (template str 0 0 0 0 none_left)

parse_loop-again :
    (fuel : ℕ) (text : List ℕ) (st st' : State)
    → step text st ≡ again st'
    → parse_loop (suc fuel) text st ≡ parse_loop fuel text st'
unfolding parse_loop
parse_loop-again fuel text st st' e = rw (e, parse_loop) refl

quote-plain :
    (after : Bool) (c : ℕ) (cs : List ℕ)
    → (c == b'%') ≡ false
    → quote after (c ∷ cs) ≡ c ∷ quote (c == b'!') cs
quote-plain after c cs p = rw (p) refl

quote-percent :
    (after : Bool) (c : ℕ) (cs : List ℕ)
    → (c == b'%') ≡ true
    → quote after (c ∷ cs) ≡ (if after then b'!' else b'%') ∷ b'%' ∷ quote false cs
quote-percent after c cs p = rw (p) refl

next-IsAfter :
    (text : List ℕ) (at c : ℕ) (b : Bool)
    → char_at text at ≡ c
    → (c == b'!') ≡ b
    → IsAfter text (at + 1) b
next-IsAfter text at c true e t =
    (omega arith, ap (λ i. char_at text i) (omega arith) ∙ (e ∙ ground (arith, t)))
next-IsAfter text at c false e t = omega arith

step-quoted :
    (after : Bool) (text str : List ℕ) (at : ℕ) (q : List ℕ)
    → drop at text ≡ (if after then b'!' else b'%') ∷ b'%' ∷ q
    → IsAfter text at after
    → step text (reading at str) ≡ again (reading (at + 2) (str ++ b'%' ∷ []))
step-quoted true text str at q e (pos, prev) =
    step-kept text (reading at str) (head_char text at e) (next_char text at e) pos prev
step-quoted false text str at q e prev =
    step-percent text (reading at str) (head_char text at e) (next_char text at e)

parse_loop-quote :
    (fuel at : ℕ) (text str : List ℕ) (after : Bool) (cs : List ℕ)
    → IsText cs
    → drop at text ≡ quote after cs
    → IsAfter text at after
    → length cs < fuel
    → parse_loop fuel text (reading at str) ≡ plain_template (str ++ cs)
unfolding parse_loop
parse_loop-quote zero at text str after cs all e prev enough = absurd (omega arith)
parse_loop-quote (suc fuel) at text str after [] all e prev enough =
    rw (step-end text (reading at str) ended, parse_loop) (ap plain_template (sym (append-nil str)))
  where
    ended : char_at text at ≡ 0
    ended =
        ap (λ i. char_at text i) (omega arith)
        ∙ (sym (get_or-drop at 0 text 0) ∙ ap (λ q. get_or q 0 0) e)
parse_loop-quote (suc fuel) at text str after (c ∷ cs) (more, all) e prev enough =
    elim (Bool-cases (c == b'%')) [
      | inl p ↦
          (let q = e ∙ quote-percent after c cs p in
            let is_percent : b'%' ≡ c = ground (arith, p) in
            parse_loop-again fuel text (reading at str) (reading (at + 2) (str ++ b'%' ∷ []))
              (step-quoted after text str at (quote false cs) q prev)
            ∙ (parse_loop-quote fuel (at + 2) text (str ++ b'%' ∷ []) false cs all
                  (past_two text at q) (omega arith) (omega arith)
                ∙ ap plain_template
                    (append_assoc str (b'%' ∷ []) cs ∙ ap (λ x. str ++ x ∷ cs) is_percent)))
      | inr p ↦
          (let q = e ∙ quote-plain after c cs p in
            let opens : (c == b'!') ≡ true → char_at text (at + 1) ≢ b'%' = λ y z.
              quote-true cs
                (ap (λ b. get_or (quote b cs) 0 0) (sym y) ∙ (sym (next_char text at q) ∙ z)) in
            parse_loop-again fuel text (reading at str) (reading (at + 1) (str ++ c ∷ []))
              (step-plain text (reading at str) c (head_char text at q) more p opens)
            ∙ (parse_loop-quote fuel (at + 1) text (str ++ c ∷ []) (c == b'!') cs all
                  (past_one text at q)
                  (next-IsAfter text at c (c == b'!') (head_char text at q) refl) (omega arith)
                ∙ ap plain_template (append_assoc str (c ∷ []) cs)))
    ]

length-quote : (after : Bool) (cs : List ℕ) → length cs ≤ length (quote after cs)
length-quote after [] = omega arith
length-quote after (c ∷ cs) =
    if-cases (λ q. suc (length cs) ≤ length q) (c == b'%') _ _
      (λ _. omega (arith, length-quote false cs)) (λ _. omega (arith, length-quote (c == b'!') cs))

-- Every C string can be written as a template: with its percent signs doubled, those behind `!`
-- written `!%`, `template_new` gives a template of the string itself that takes no arguments.
pub template_new-quote :
    (cs : List ℕ)
    → IsText cs
    → template_new (quote false cs) ≡ parsed (template cs 0 0 0 0 none_left)
unfolding template_new
template_new-quote cs all =
    parse_loop-quote (length (quote false cs) + 1) 0 (quote false cs) [] false cs all refl
      (omega arith) (omega (arith, length-quote false cs))
