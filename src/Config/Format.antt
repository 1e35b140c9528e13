-- ===== src/Config/Format.antt =====
-- `Config` of src/config.hpp and src/config.cpp. The type of `float`, `strtof` and the printing of a
-- `float` are those of the platform, in `Floats`.
use corecommon.Common.{
  ℕ, ◌≤◌, Bool, true, false, not, Option, some, List, [], ◌∷◌, ◌++◌, ℤ, pos, if◌then◌else◌, ◌>>=◌,
  ◌==◌, ◌||◌, ◌≡◌,
}
use corecommon.HashMap.Table.{Key, Value, HashMap}
use corecommon.HashMap.Methods.{insert}
use corecommon.HashMap.Iterating.{visited}
use corecommon.Parser.Span.{strlen}
use corecommon.Parser.State.{codes, parser_of}
use corecommon.Parser.Numbers.{print_long}
use corecommon.Parser.Syntax.{
  ParseMap, result_map, ignore, tuple_map, tuple_one, not_map, look_ahead, chain, multiple, many,
  or_else, parse_string, any, parse_eof, parse_ws, match_text, parse_int, parse_float, run,
  skip_after, no_limit,
}

pub record Floats : Type 1 where
  pub Float : Type 0
  pub strtof : List ℕ → Float × ℕ
  pub strtof-le-strlen : (s : List ℕ) → (strtof s).1 ≤ strlen s
  pub print_float : Float → List ℕ
  -- No number begins with these two letters.
  pub no_number : (c : ℕ) (s : List ℕ) → (c == b't' || c == b'f') ≡ true → (strtof (c ∷ s)).1 ≡ 0

-- Parsers that give nothing.
abbrev pub Plain : Type 1
Plain = ParseMap (Unit {0}) (Unit {0})

-- `Match(x)` and `Many(x)`, and `a + b` on parsers that give nothing.
abbrev literal : List ℕ → Plain
literal text = match_text text

abbrev pub all_of : Plain → Plain
all_of m = many 0 no_limit (λ _. tt) m

abbrev pub then_map : {A : Type 0} → A → Plain → ParseMap (Unit {0}) A → ParseMap (Unit {0}) A
then_map default first second = chain (λ _. default) first second

unfoldable pub newline : Plain
newline = many 0 1 (λ _. tt) (or_else (literal (codes "\r")) (literal (codes "\n")))

-- The text of a quoted string: escaped bytes, or anything but a quote.
unfoldable pub quoted_text : Plain
quoted_text =
    all_of (or_else (then_map tt (literal (codes "\\")) any) (not_map (literal (codes "\""))))

unfoldable pub quoted : ParseMap (Unit {0}) (List ℕ)
quoted =
    skip_after (λ _. []) (then_map [] (literal (codes "\"")) (parse_string (λ _. []) quoted_text))
      (then_map tt (literal (codes "\"")) newline)

unfoldable pub sep : Plain
sep = then_map tt (then_map tt (all_of parse_ws) (literal (codes "="))) (all_of parse_ws)

-- The name before a separator.
unfoldable pub name : ParseMap (Unit {0}) (List ℕ)
name = then_map [] (all_of parse_ws) (
    skip_after (λ _. [])
      (parse_string (λ _. []) (all_of (then_map tt (not_map (look_ahead sep)) any))) sep)

module _ (floats : Floats) where
  -- `Config::Variant`
  pub data Variant : Type 0 where
    of_float : floats.Float → Variant
    of_string : List ℕ → Variant
    of_long : ℤ → Variant
    of_bool : Bool → Variant

  -- `Config::Value`
  pub record ConfigValue : Type 0 where
    pub is_default : Bool
    pub var : Variant

  -- `Value {.is_default=false, .var=Variant(x)}`
  abbrev pub given : Variant → ConfigValue
  given v = record { is_default = false; var = v }

  -- A value that a failed parser is converted to.
  abbrev pub blank : ConfigValue
  blank = given (of_bool false)

  abbrev pub valued :
      {A : Type 0} → ParseMap (Unit {0}) A → (A → Variant) → ParseMap (Unit {0}) ConfigValue
  valued m make = chain (λ _. blank) m (result_map (λ x. given (make x)))

  unfoldable pub long_value : ParseMap (Unit {0}) ConfigValue
  long_value = valued (skip_after (λ _. pos 0) parse_int newline) of_long

  unfoldable pub float_value : ParseMap (Unit {0}) ConfigValue
  float_value =
      valued (skip_after (λ _. (floats.strtof []).0) (parse_float floats.strtof) newline) of_float

  unfoldable pub bool_value : ParseMap (Unit {0}) ConfigValue
  bool_value =
      skip_after (λ _. blank)
        (or_else (valued (literal (codes "true")) (λ _. of_bool true))
          (valued (literal (codes "false")) (λ _. of_bool false)))
        newline

  unfoldable pub value : ParseMap (List ℕ) ConfigValue
  value =
      chain (λ _. blank) ignore
        (or_else (or_else (or_else long_value float_value) bool_value) (valued quoted of_string))

  unfoldable pub entry : ParseMap (Unit {0}) (List ℕ × (ConfigValue × Unit {0}))
  entry = tuple_map (λ k. (k, (blank, tt))) (λ v. ([], v)) name (tuple_one value)

  -- The whole file.
  unfoldable pub entries : ParseMap (Unit {0}) (List (List ℕ × (ConfigValue × Unit {0})))
  entries =
      skip_after (λ _. []) (multiple 0 no_limit ([], (blank, tt)) (λ e. e ∷ []) entry)
        (then_map tt (all_of parse_ws) parse_eof)

  abbrev pub print_var : Variant → List ℕ
  print_var (of_bool true) = codes "true"
  print_var (of_bool false) = codes "false"
  print_var (of_string x) = codes "\"" ++ x ++ codes "\""
  print_var (of_long x) = print_long x
  print_var (of_float x) = floats.print_float x

  unfoldable pub print_entries : List (List ℕ × ConfigValue) → List ℕ
  print_entries [] = []
  print_entries ((k, v) ∷ es) =
      let rest = print_entries es in
      if not v.is_default
      then k ++ (codes " = " ++ (print_var v.var ++ (codes "\n" ++ rest)))
      else rest

  module _ ⦃key : Key (List ℕ)⦄ ⦃default : Value ConfigValue⦄ where
    abbrev Settings : Type 0
    Settings = HashMap (List ℕ) ConfigValue

    unfoldable pub insert_all :
        ℕ → Settings → List (List ℕ × (ConfigValue × Unit {0})) → Option Settings
    insert_all fuel m [] = some m
    insert_all fuel m ((k, (v, _)) ∷ es) = do
      (_, m') ← insert false fuel m k v
      insert_all fuel m' es

    -- `Config::parse`: nothing is inserted where the file does not parse.
    unfoldable pub parse : ℕ → Settings → List ℕ → Option Settings
    parse fuel m str = run fuel entries (parser_of str tt) >>= λ parsed.
        let inserted = insert_all fuel m parsed.res in if parsed.err then some m else inserted

    -- `Config::save`, over the map in the order of its iterator.
    unfoldable pub save : ℕ → Settings → Option (List ℕ)
    save fuel m = visited fuel m >>= λ es. some (print_entries es)
