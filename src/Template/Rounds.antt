-- ===== src/Template/Rounds.antt =====
-- What a round of the loop of `template_new` leaves: its cursors stay in their texts.
use corecommon.Common.{
  ℕ, zero, suc, ◌+◌, ◌-◌, ◌≤◌, ◌<◌, ◌≡◌, ◌≢◌, refl, true, false, List, [], ◌∷◌, ◌++◌, length,
  length-append, ◌==◌, ltb, if◌then◌else◌, arith, if-cases, ◌&&◌, ◌||◌,
}
use corecommon.Template.Tree.{argument}
use corecommon.Template.Layout.{LiesWithin, LiesWithin-mono, append_sub-LiesWithin}
use corecommon.Template.Parsing.{
  char_at, State, Action, finish, again, nest, overrun, step_argument, step_condition, step,
  index_of,
}

-- The state of the loop: the cursors are in their texts, the substitutions lie in what was written.
pub record IsOnCourse (text : List ℕ) (st : State) : Type 0 where
  pub inside : st.read ≤ length text
  pub behind : length st.str ≤ st.read
  pub skipped : st.skip ≤ length text
  pub lie : LiesWithin st.subs 0 (length st.str)

-- What a round leaves.
abbrev pub Leaves : List ℕ → State → Action → Type 0
Leaves text st (finish st') = IsOnCourse text st'
Leaves text st (again st') = IsOnCourse text st' × (st.read < st'.read)
Leaves text st (nest st' loop inverted idx) = IsOnCourse text st' × (st.read < st'.read)
Leaves text st overrun = 0 ≤ 0

-- A character that is not the end lies in the text.
char_at-inside : (text : List ℕ) (i : ℕ) → char_at text i ≢ 0 → i < length text
char_at-inside [] i h = absurd (h refl)
char_at-inside (c ∷ cs) zero h = omega arith
char_at-inside (c ∷ cs) (suc i) h = omega (arith, char_at-inside cs i h)

not_end : (text : List ℕ) (i : ℕ) → (char_at text i == 0) ≡ false → i < length text
not_end text i e = char_at-inside text i (λ z. ground (arith, z, e))

-- A character that is one of the code's own lies in the text.
is_char : (text : List ℕ) (i c : ℕ) → (char_at text i == c) ≡ true → 0 < c → i < length text
is_char text i c e pos = char_at-inside text i (λ z. ground (arith, z, e))

one_more : (st : State) (c : ℕ) → length (st.str ++ c ∷ []) ≡ length st.str + 1
one_more st c = length-append st.str (c ∷ [])

-- A round that writes a character.
written :
    (text : List ℕ) (st : State) (c to : ℕ)
    → IsOnCourse text st
    → st.read < to
    → to ≤ length text
    → Leaves text st (again (record st { read = to; str = st.str ++ c ∷ [] }))
written text st c to v lt le = (
  record {
    inside = le;
    behind = omega (arith, one_more st c, v.behind);
    skipped = v.skipped;
    lie =
        LiesWithin-mono st.subs 0 (length st.str) (length (st.str ++ c ∷ [])) v.lie
          (omega (arith, one_more st c));
  },
  lt,
)

step_argument-Leaves :
    (text : List ℕ) (st : State) → IsOnCourse text st → Leaves text st (step_argument text st)
unfolding step_argument
step_argument-Leaves text st v =
    let noescape = char_at text (st.read + 1) == b'#' in
    let at = if noescape then st.read + 2 else st.read + 1 in
    let later : st.read < at = ground arith in
    if-cases (Leaves text st) (char_at text at == 0) _ _ (λ _. omega arith)
      λ e. (
        record {
          inside = omega (arith, not_end text at e);
          behind = omega (arith, v.behind, later);
          skipped = v.skipped;
          lie =
              append_sub-LiesWithin st.subs
                (argument (index_of (char_at text at)) (length st.str) noescape) 0 v.lie
                (omega arith);
        },
        omega arith,
      )

step_condition-Leaves :
    (text : List ℕ) (st : State) → IsOnCourse text st → Leaves text st (step_condition text st)
unfolding step_condition
step_condition-Leaves text st v =
    let loop = char_at text (st.read + 2) == b'*' in
    let inverted = char_at text (st.read + 2) == b'!' in
    let at = if loop || inverted then st.read + 3 else st.read + 2 in
    let later : st.read < at = ground arith in
    if-cases (Leaves text st) (char_at text at == 0) _ _ (λ _. omega arith)
      λ e. (
        record {
          inside = omega (arith, not_end text at e);
          behind = omega (arith, v.behind, later);
          skipped = v.skipped;
          lie = v.lie;
        },
        omega arith,
      )

pub step-Leaves : (text : List ℕ) (st : State) → IsOnCourse text st → Leaves text st (step text st)
unfolding step
step-Leaves text st v =
    let P = Leaves text st in
    let c = char_at text st.read in
    let c1 = char_at text (st.read + 1) in
    if-cases P (c == 0) _ _ (λ _. v)
      λ more.
        if-cases P (c == b'!' && c1 == b'%') _ _
          (λ e.
            let two = is_char text (st.read + 1) b'%' (ground (arith, e)) (omega arith) in
            if-cases P (ltb 0 st.read && char_at text (st.read - 1) == b'!') _ _
              (λ _. written text st b'%' (st.read + 2) v (omega arith) (omega (arith, two)))
              λ _. record {
                inside = v.inside;
                behind = v.behind;
                skipped = omega (arith, two);
                lie = v.lie;
              })
          λ _.
            if-cases P (c == b'%') _ _
              (λ _.
                if-cases P (c1 == b'%') _ _
                  (λ e.
                    written text st b'%' (st.read + 2) v (omega arith)
                      (omega (arith, is_char text (st.read + 1) b'%' e (omega arith))))
                  λ _.
                    if-cases P (c1 == b'!') _ _ (λ _. step_condition-Leaves text st v)
                      λ _. step_argument-Leaves text st v)
              λ _.
                written text st c (st.read + 1) v (omega arith)
                  (omega (arith, not_end text st.read more))
