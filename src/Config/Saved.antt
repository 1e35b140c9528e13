-- ===== src/Config/Saved.antt =====
-- What `Config::save` of src/config.cpp writes, `Config::parse` reads.
use corecommon.Common.{
  ℕ, suc, ◌+◌, ◌^◌, ◌%◌, ◌<◌, ◌≡◌, ◌≢◌, refl, ap, ◌∙◌, true, false, not, some, ◌>>=◌, List, [], ◌∷◌,
  ◌++◌, arith, length, length-append, if◌then◌else◌, Bool-cases, inl, inr, if-cases, Gives-outcome,
  take-all,
}
use corecommon.HashMap.Table.{Key, Value, HashMap}
use corecommon.HashMap.Iterating.{visited}
use corecommon.Parser.Span.{strchr_found, strlen, count_while, span_of}
use corecommon.Parser.State.{codes, parser_of}
use corecommon.Parser.Literal.{IsString, IsString-append, cons-IsString}
use corecommon.Parser.Numbers.{print_long-IsString}
use corecommon.Parser.Accepts.{
  At, Accepts, chain-Accepts, skip-Accepts, tuple_map-Accepts, tuple_map-Rejects, tuple_one-Accepts,
}
use corecommon.Parser.Loops.{Loops, stop, round, many-Accepts, multiple-Accepts}
use corecommon.Parser.Bytes.{parse_eof-Accepts, parse_ws-Rejects_end}
use corecommon.Config.Format.{
  Floats, Variant, of_long, of_bool, of_string, of_float, ConfigValue, given, name, entry, entries,
  print_var, print_entries, parse, save, insert_all,
}
use corecommon.Config.Entries.{IsName}
use corecommon.Config.Values.{IsWritten, value-Accepts}
use corecommon.Config.Names.{name-Accepts, name-Rejects_end, written-cons}

module _ (floats : Floats) where
  -- Entries that come back: those that are not written, and names with a `long` or a Boolean.
  unfoldable pub IsSaved : List (List ℕ × ConfigValue floats) → Type 0
  IsSaved [] = Unit
  IsSaved ((k, v) ∷ es) =
      (v.is_default ≡ false → IsName k × (k ≢ []) × IsWritten floats v.var) × IsSaved es

  -- The entries that are written, as they are read.
  unfoldable pub rows :
      List (List ℕ × ConfigValue floats) → List (List ℕ × (ConfigValue floats × Unit {0}))
  rows [] = []
  rows ((k, v) ∷ es) =
      let rest = rows es in if not v.is_default then (k, (given floats v.var, tt)) ∷ rest else rest

  -- One entry.
  entry-Accepts :
      (n : ℕ) (k : List ℕ) (v : Variant floats) (t : List ℕ)
      → IsName k
      → k ≢ []
      → IsWritten floats v
      → 6 + length (k ++ (codes " = " ++ (print_var floats v ++ (codes "\n" ++ t)))) < suc (suc n)
      → Accepts
          (suc (suc n))
          (entry floats)
          tt
          (k ++ (codes " = " ++ (print_var floats v ++ (codes "\n" ++ t))))
          (k, (given floats v, tt))
          t
  unfolding entry
  entry-Accepts n [] v t name some_name w h = absurd (some_name refl)
  entry-Accepts n (d ∷ k) v t named some_name w h =
      let text : List ℕ = print_var floats v ++ (codes "\n" ++ t) in
      let (c, u, e, b) = written-cons floats v (codes "\n" ++ t) w in
      let size : length text ≡ suc (length u) = ap length e in
      let all : length ((d ∷ k) ++ (codes " = " ++ text)) ≡ suc (length k) + (3 + length text) =
        length-append (d ∷ k) (codes " = " ++ text) ∙ omega arith in
      tuple_map-Accepts (name-Accepts (suc (suc n)) d k c u text named e b (omega arith))
        (tuple_one-Accepts (value-Accepts floats n (d ∷ k) v t w))

  -- The file's entries, one round for each.
  entries-Loops :
      (n : ℕ) (es : List (List ℕ × ConfigValue floats))
      → IsSaved es
      → 6 + length (print_entries floats es) < suc (suc n)
      → Loops (suc (suc n)) (entry floats) tt (print_entries floats es) (rows es) []
  unfolding print_entries rows IsSaved entry
  entries-Loops n [] w h = stop (tuple_map-Rejects (name-Rejects_end (suc (suc n)) (omega arith)))
  entries-Loops n ((k, v) ∷ es) w h = elim (Bool-cases v.is_default) [
    | inl skipped ↦
        let h' : 6 + length (print_entries floats es) < suc (suc n) = rw skipped at h in
        rw skipped (entries-Loops n es w.1 h')
    | inr written ↦
        let (named, some_name, wr) = w.0 written in
        let rest : List ℕ = print_entries floats es in
        let text : List ℕ =
          k ++ (codes " = " ++ (print_var floats v.var ++ (codes "\n" ++ rest))) in
        let h' : 6 + length text < suc (suc n) = rw written at h in
        let value : List ℕ = print_var floats v.var ++ (codes "\n" ++ rest) in
        let size : length text ≡ length k + suc (suc (suc (length value))) =
          length-append k (codes " = " ++ value) in
        let line : length value ≡ length (print_var floats v.var) + suc (length rest) =
          length-append (print_var floats v.var) (codes "\n" ++ rest) in
        rw written (
          round (entry-Accepts n k v.var rest named some_name wr h') (omega arith)
            (entries-Loops n es w.1 (omega arith)))
  ]

  entries-Accepts :
      (n : ℕ) (es : List (List ℕ × ConfigValue floats))
      → IsSaved es
      → 6 + length (print_entries floats es) < suc (suc n)
      → Accepts (suc (suc n)) (entries floats) tt (print_entries floats es) (rows es) []
  unfolding entries
  entries-Accepts n es w h =
      chain-Accepts (multiple-Accepts (entries-Loops n es w h) (omega arith)) (
        skip-Accepts (
          chain-Accepts (many-Accepts (stop (parse_ws-Rejects_end (suc (suc n)))) (omega arith))
            (parse_eof-Accepts (suc (suc n)))))

At-parser_of :
    (text : List ℕ) → IsString text → length text < 2 ^ 32 → At tt text (parser_of text tt)
unfolding parser_of span_of
At-parser_of text s h =
    let size : strlen text % 2 ^ 32 ≡ length text = omega (arith, s) in
    record {
      inside = record { to_end = omega arith; fits = omega (arith, s) };
      ok = refl;
      res = refl;
      left = take-all text _ (omega arith);
    }

name-IsString : (k : List ℕ) → IsName k → IsString k
unfolding IsName strchr_found count_while
name-IsString [] n = refl
name-IsString (c ∷ k) n = cons-IsString c k (ground (arith, n.0)) (name-IsString k n.2)

module _ (floats : Floats) where
  written-IsString : (v : Variant floats) → IsWritten floats v → IsString (print_var floats v)
  unfolding IsWritten count_while
  written-IsString (of_long z) w = print_long-IsString z
  written-IsString (of_bool true) w = refl
  written-IsString (of_bool false) w = refl
  written-IsString (of_string x) w = absurd w
  written-IsString (of_float x) w = absurd w

  entries-IsString :
      (es : List (List ℕ × ConfigValue floats))
      → IsSaved floats es
      → IsString (print_entries floats es)
  unfolding print_entries IsSaved count_while
  entries-IsString [] w = refl
  entries-IsString ((k, v) ∷ es) w =
      let rest = entries-IsString es w.1 in
      if-cases IsString (not v.is_default) _ _
        (λ e.
          let (named, some_name, wr) = w.0 (ground arith) in
          IsString-append k _ (name-IsString k named) (
            IsString-append (codes " = ") _ refl (
              IsString-append (print_var floats v.var) _ (written-IsString v.var wr)
                (IsString-append (codes "\n") _ refl rest))))
        (λ e. rest)

module _ (floats : Floats) ⦃key : Key (List ℕ)⦄ ⦃default : Value (ConfigValue floats)⦄ where
  -- What `save` writes, `parse` reads: parsing the saved text of a map into another map inserts the
  -- entries that the first one's iterator visits, in that order, without the default ones. The
  -- hypotheses: each entry that is not a default one has a name without white space and equals signs
  -- and a `long` or a Boolean; the text is shorter than the fuel and than 2 ^ 32.
  pub parse-save :
      (n : ℕ) (m m' : HashMap (List ℕ) (ConfigValue floats))
      (es : List (List ℕ × ConfigValue floats))
      → visited (suc (suc n)) m ≡ some es
      → IsSaved floats es
      → 6 + length (print_entries floats es) < suc (suc n)
      → length (print_entries floats es) < 2 ^ 32
      → (save floats (suc (suc n)) m >>= parse floats (suc (suc n)) m')
        ≡ insert_all floats (suc (suc n)) m' (rows floats es)
  unfolding save parse
  parse-save n m m' es e w h l =
      let text : List ℕ = print_entries floats es in
      let (q, r, k) = Gives-outcome (At (rows floats es) []) _ (
        (entries-Accepts floats n es w h).gives (parser_of text tt)
          (At-parser_of text (entries-IsString floats es w) l)) in
      rw e (rw r (rw k.ok (ap (insert_all floats (suc (suc n)) m') k.res)))
