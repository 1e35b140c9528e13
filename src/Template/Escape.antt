-- ===== src/Template/Escape.antt =====
-- What `template_substitute` of src/template.c writes for an argument that it escapes.
use corecommon.Common.{
  ℕ, ◌≡◌, Bool, true, false, ◌||◌, List, [], ◌∷◌, ◌++◌, ◌==◌, if◌then◌else◌, if-cases, refl,
}
use corecommon.Template.Rendering.{escaped, write_text}

-- A character that HTML reads as markup.
abbrev pub is_markup : ℕ → Bool
is_markup c = c == b'<' || (c == b'>' || (c == b'"' || c == 39))

abbrev pub no_markup : List ℕ → Bool
no_markup [] = true
no_markup (c ∷ cs) = if is_markup c then false else no_markup cs

-- An escaped argument has no `<`, `>`, `"` or `'`.
pub write_text-no_markup : (cs : List ℕ) → no_markup (write_text cs) ≡ true
unfolding write_text escaped
write_text-no_markup [] = refl
write_text-no_markup (c ∷ cs) =
    let P = λ (e : List ℕ).
      no_markup (elim e [ [] ↦ c ∷ write_text cs | x ∷ xs ↦ (x ∷ xs) ++ write_text cs ]) ≡ true in
    let rest = write_text-no_markup cs in
    if-cases P (c == b'<') _ _ (λ _. rest)
      λ lt.
        if-cases P (c == b'>') _ _ (λ _. rest)
          λ gt.
            if-cases P (c == b'&') _ _ (λ _. rest)
              λ _.
                if-cases P (c == b'"') _ _ (λ _. rest)
                  λ quote.
                    if-cases P (c == 39) _ _ (λ _. rest)
                      λ apostrophe. rw (lt, gt, quote, apostrophe) rest
