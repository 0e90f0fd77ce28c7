-- ===== src/Benchmark/Csv.antt =====
-- src/app/benchmark/domain/benchmark_corpus_parse.ts: `parseCsvRows`. The loop reads characters
-- where the source reads UTF-16 units: all that it looks for is ASCII.
pub mod RoundTrip
use Prim.Native.Char.{Char, code}
use Prim.Native.String.{[], ◌∷◌}
use pact_web.Prelude.{
  eqb, if◌then◌else◌, Bool, true, false, ◌&&◌, ◌||◌, not, Option, none, some, List, [], ◌∷◌, ◌++◌,
  String, ◌==◌,
}
use pact_web.Prelude.Text.{◌<>◌, truthy}

-- `rows`, `row`, `field` and `inQuotes` of the loop, and whether `i += 1` leaves out a character.
pub data Cursor : Type 0 where
  cursor : List (List String) → List String → String → Bool → Bool → Cursor

-- `text[i]` of the text from there.
abbrev pub head : String → Option Char
head [] = none
head (c ∷ s) = some c

abbrev pub is_char : Option Char → Char → Bool
is_char none d = false
is_char (some c) d = eqb (code c) (code d)

abbrev pub quote : Char
quote = "\""

abbrev pub comma : Char
comma = ","

abbrev pub return : Char
return = "\r"

abbrev pub newline : Char
newline = "\n"

-- The body of the loop inside quotes, and outside; `next` is `text[i + 1]`.
unfoldable pub quoted_step : List (List String) → List String → String → Char → Option Char → Cursor
quoted_step rows row field letter next =
    if is_char (some letter) quote
    then if is_char next quote
      then cursor rows row (field <> (quote ∷ [])) true true
      else cursor rows row field false false
    else cursor rows row (field <> (letter ∷ [])) true false

unfoldable pub plain_step : List (List String) → List String → String → Char → Option Char → Cursor
plain_step rows row field letter next =
    if is_char (some letter) quote
    then cursor rows row field true false
    else if is_char (some letter) comma
    then cursor rows (row ++ field ∷ []) "" false false
    else if is_char (some letter) return || is_char (some letter) newline
    then cursor (rows ++ (row ++ field ∷ []) ∷ []) [] "" false
        (is_char (some letter) return && is_char next newline)
    else cursor rows row (field <> (letter ∷ [])) false false

unfoldable pub csv_step : Cursor → Char → Option Char → Cursor
csv_step (cursor rows row field in_quotes true) letter next = cursor rows row field in_quotes false
csv_step (cursor rows row field true false) letter next = quoted_step rows row field letter next
csv_step (cursor rows row field false false) letter next = plain_step rows row field letter next

unfoldable pub csv_scan : Cursor → String → Cursor
csv_scan at [] = at
csv_scan at (c ∷ s) = csv_scan (csv_step at c (head s)) s

-- The row that a text without a last line end leaves.
unfoldable pub flushed : Cursor → List (List String)
flushed (cursor rows [] field in_quotes skip) =
    if truthy field then rows ++ (field ∷ []) ∷ [] else rows
flushed (cursor rows (c ∷ row) field in_quotes skip) = rows ++ ((c ∷ row) ++ field ∷ []) ∷ []

unfoldable pub parse_csv_rows : String → List (List String)
parse_csv_rows text = flushed (csv_scan (cursor [] [] "" false false) text)
