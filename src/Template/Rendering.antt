-- ===== src/Template/Rendering.antt =====
-- `template_length` and `template_substitute` of src/template.c. A read of an argument that is not
-- there, or of rows that are freed, has no result.
use corecommon.Common.{
  ℕ, ◌+◌, ◌-◌, ◌%◌, ◌^◌, Bool, true, false, not, List, [], ◌∷◌, ◌++◌, length, take, drop, Option,
  some, ◌>>=◌, ◌==◌, if◌then◌else◌,
}
use corecommon.Template.Tree.{
  Template, template, Substitutions, none_left, then_sub, Substitution, insertion, argument, Args,
  Rows, no_rows, row, offset_of, cond_at, loop_at, sub_at, free_loop,
}

-- `unsigned long` addition.
abbrev pub add_long : ℕ → ℕ → ℕ
add_long a b = (a + b) % 2 ^ 64

-- The escape of a character; the empty text stands for NULL.
unfoldable pub escaped : ℕ → List ℕ
escaped c =
    if c == b'<'
    then b'&' ∷ b'l' ∷ b't' ∷ b';' ∷ []
    else if c == b'>'
    then b'&' ∷ b'g' ∷ b't' ∷ b';' ∷ []
    else if c == b'&'
    then b'&' ∷ b'a' ∷ b'm' ∷ b'p' ∷ b';' ∷ []
    else if c == b'"'
    then b'&' ∷ b'q' ∷ b'u' ∷ b'o' ∷ b't' ∷ b';' ∷ []
    else if c == 39
    then b'&' ∷ b'#' ∷ b'3' ∷ b'9' ∷ b';' ∷ []
    else []

-- What `template_length` adds for a character.
unfoldable pub escaped_length : ℕ → ℕ
escaped_length c =
    if c == b'<'
    then 4
    else if c == b'>'
    then 4
    else if c == b'&'
    then 5
    else if c == 39
    then 5
    else if c == b'"'
    then 6
    else 1

-- The loop over the characters of an argument in `template_length`.
unfoldable pub measure_text : ℕ → List ℕ → ℕ
measure_text len [] = len
measure_text len (c ∷ cs) = measure_text (add_long len (escaped_length c)) cs

-- The one in `template_substitute`: what it writes.
unfoldable pub write_text : List ℕ → List ℕ
write_text [] = []
write_text (c ∷ cs) = elim (escaped c) [
  | [] ↦ c ∷ write_text cs
  | e ∷ es ↦ (e ∷ es) ++ write_text cs
]

-- `sub->inverted ^ !cond`
abbrev pub skips : Bool → ℕ → Bool
skips inverted cond = if inverted then not (cond == 0) else cond == 0

-- The loop over the rows, each with the arguments of its own.
unfoldable pub length_rows : (ℕ → Args → Option ℕ) → Rows → ℕ → Option ℕ
length_rows each no_rows len = some len
length_rows each (row r rs) len = do len' ← each len r; length_rows each rs len'

unfoldable mutual
  pub template_length : Template → ℕ → Args → Option ℕ
  template_length (template str skip ma mc ml subs) len a =
      length_subs subs (add_long len (length str)) a

  pub length_subs : Substitutions → ℕ → Args → Option ℕ
  length_subs none_left len a = some len
  length_subs (then_sub s ss) len a = do len' ← length_sub s len a; length_subs ss len' a

  pub length_sub : Substitution → ℕ → Args → Option ℕ
  length_sub (insertion idx offset inverted true t) len a = do
    rows ← loop_at a idx
    length_rows (template_length t) rows len
  length_sub (insertion idx offset inverted false t) len a = do
    cond ← cond_at a idx
    elim (skips inverted cond) [ true ↦ some len | false ↦ template_length t len a ]
  length_sub (argument idx offset noescape) len a = do
    arg ← sub_at a idx
    some (if noescape then add_long len (length arg) else measure_text len arg)

-- The loop over the rows in `template_substitute`. The arrays of a row are freed after its round,
-- and no other round uses them.
unfoldable pub write_rows : (Args → Option (List ℕ × Args)) → Rows → Option (List ℕ)
write_rows each no_rows = some []
write_rows each (row r rs) = do (out, freed) ← each r; rest ← write_rows each rs; some (out ++ rest)

-- `template_substitute`: what it writes, and the arguments with the loops that it freed. `at` is
-- `template_ptr-template->str`.
unfoldable mutual
  pub template_substitute : Template → Args → Option (List ℕ × Args)
  template_substitute (template str skip ma mc ml subs) a = write_subs subs str 0 a

  pub write_subs : Substitutions → List ℕ → ℕ → Args → Option (List ℕ × Args)
  write_subs none_left str at a = some (take (length str - at) (drop at str), a)
  write_subs (then_sub s ss) str at a =
      let before = (offset_of s + 2 ^ 64 - at) % 2 ^ 64 in
      do
        (out, a') ← write_sub s a
        (rest, a'') ← write_subs ss str (at + before) a'
        some (take before (drop at str) ++ (out ++ rest), a'')

  pub write_sub : Substitution → Args → Option (List ℕ × Args)
  write_sub (insertion idx offset inverted true t) a = do
    rows ← loop_at a idx
    out ← write_rows (template_substitute t) rows
    some (out, free_loop a idx)
  write_sub (insertion idx offset inverted false t) a = do
    cond ← cond_at a idx
    elim (skips inverted cond) [ true ↦ some ([], a) | false ↦ template_substitute t a ]
  write_sub (argument idx offset noescape) a = do
    arg ← sub_at a idx
    some ((if noescape then arg else write_text arg), a)
