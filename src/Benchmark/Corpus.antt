-- ===== src/Benchmark/Corpus.antt =====
-- src/app/benchmark/domain/benchmark_corpus_parse.ts: an uploaded file as columns and rows. The
-- fields of a row stand in the order of `Object.keys`.
pub mod Columns
use Prim.Native.Char.{Char, code}
use Prim.Native.String.{[], ◌∷◌}
use pact_web.Prelude.{
  ℕ, zero, suc, eqb, if◌then◌else◌, Bool, true, false, ◌&&◌, ◌||◌, not, Option, none, some,
  get_or_else, List, [], ◌∷◌, ◌++◌, map, keep, any, get_elem?, String, ◌==◌,
}
use pact_web.Prelude.Text.{truthy, show, ◌<>◌}
use pact_web.Prelude.Text.Case.{equals_lower}
use pact_web.Prelude.Trim.{trim}
use pact_web.Prelude.Json.{Json, obj, arr, str, Items, nil, cons, Fields, end, field}
use pact_web.Prelude.Result.{Result, ok, err, ◌>>=◌}
use pact_web.Benchmark.Csv.{parse_csv_rows}

pub record ParsedCorpus : Type 0 where
  pub columns : List String
  pub rows : List Fields

-- The text behind the last dot.
unfoldable pub after_last_dot : String → Option String
after_last_dot [] = none
after_last_dot (c ∷ s) = elim (after_last_dot s) [
  | some ext ↦ some ext
  | none ↦ if eqb (code c) b'.' then some s else none
]

-- Whether `fileExtension(filename)` is a word.
unfoldable pub has_extension : String → String → Bool
has_extension word filename = elim (after_last_dot filename) [
  | none ↦ false
  | some ext ↦ equals_lower word ext
]

-- `SUPPORTED_EXTENSIONS.includes(ext)`
unfoldable pub is_supported : String → Bool
is_supported filename =
    has_extension "jsonl" filename
    || has_extension "ndjson" filename
    || has_extension "json" filename
    || has_extension "csv" filename

abbrev pub is_in : String → List String → Bool
is_in k ks = any (λ j. j == k) ks

-- A name behind those that are there, unless it is one of them.
abbrev pub added : String → List String → List String
added k ks = if is_in k ks then ks else ks ++ k ∷ []

-- The keys of a row that are not yet among the columns, behind them.
unfoldable pub add_keys : Fields → List String → List String
add_keys end columns = columns
add_keys (field k v fs) columns = add_keys fs (added k columns)

abbrev add_rows : List Fields → List String → List String
add_rows [] columns = columns
add_rows (row ∷ rows) columns = add_rows rows (add_keys row columns)

-- `collectColumns`
unfoldable pub collect_columns : List Fields → List String
collect_columns rows = add_rows rows []

abbrev starts_newline : String → Bool
starts_newline [] = false
starts_newline (c ∷ s) = eqb (code c) b'\n'

abbrev extend : Char → List String → List String
extend c [] = (c ∷ []) ∷ []
extend c (l ∷ ls) = (c ∷ l) ∷ ls

-- `text.split(/\r\n|\n/)`
unfoldable pub split_lines : String → List String
split_lines [] = [] ∷ []
split_lines (c ∷ s) =
    let rest = split_lines s in
    if eqb (code c) b'\n'
    then [] ∷ rest
    else if eqb (code c) b'\r' && starts_newline s
    then rest
    else extend c rest

-- The rows from a number on; `none` is a text that is no JSON.
unfoldable pub object_rows : ℕ → List (Option Json) → Result String (List Fields)
object_rows i [] = ok []
object_rows i (none ∷ entries) = err ("Row " <> show i <> " is not valid JSON")
object_rows i (some (obj row) ∷ entries) = do rows ← object_rows (suc i) entries; ok (row ∷ rows)
object_rows i (some v ∷ entries) = err ("Row " <> show i <> " is not a JSON object")

abbrev with_columns : List Fields → ParsedCorpus
with_columns rows = record { columns = collect_columns rows; rows = rows }

abbrev entries_of : Items → List (Option Json)
entries_of nil = []
entries_of (cons v vs) = some v ∷ entries_of vs

-- The rows of a file that has some.
abbrev from_entries : List (Option Json) → Result String ParsedCorpus
from_entries [] = err "File is empty"
from_entries (e ∷ es) = object_rows 1 (e ∷ es) >>= λ rows. ok (with_columns rows)

abbrev from_array : Option Json → Result String ParsedCorpus
from_array none = err "File is not valid JSON"
from_array (some (arr items)) = from_entries (entries_of items)
from_array (some v) = err "JSON file must contain an array of objects"

-- `row[column] = value`
unfoldable pub set_field : String → Json → Fields → Fields
set_field k v end = field k v end
set_field k v (field j w fs) =
    let rest = set_field k v fs in if j == k then field k v fs else field j w rest

-- The loop over the columns, from an index on.
unfoldable pub csv_row : List String → ℕ → List String → Fields → Fields
csv_row cells i [] row = row
csv_row cells i (column ∷ columns) row =
    csv_row cells (suc i) columns (set_field column (str (get_or_else (get_elem? cells i) "")) row)

abbrev is_blank_line : List String → Bool
is_blank_line (cell ∷ []) = cell == ""
is_blank_line _ = false

abbrev csv_corpus : List (List String) → Result String ParsedCorpus
csv_corpus [] = err "File is empty"
csv_corpus (head ∷ []) = err "File is empty"
csv_corpus (head ∷ cells ∷ rest) =
    let columns = map trim head in
    ok (record { columns = columns; rows = map (λ cs. csv_row cs 0 columns end) (cells ∷ rest) })

unfoldable pub parse_csv : String → Result String ParsedCorpus
unfolding parse_csv_rows
parse_csv text = csv_corpus (keep (λ cells. not (is_blank_line cells)) (parse_csv_rows text))

-- `parse` is `JSON.parse`, `none` where it throws.
module _ (parse : String → Option Json) where
  unfoldable pub parse_jsonl_rows : String → Result String ParsedCorpus
  parse_jsonl_rows text = from_entries (map parse (keep truthy (map trim (split_lines text))))

  unfoldable pub parse_json_array : String → Result String ParsedCorpus
  parse_json_array text = from_array (parse text)

  abbrev parse_text : String → String → Result String ParsedCorpus
  parse_text filename text =
      if has_extension "csv" filename
      then parse_csv text
      else if has_extension "json" filename
      then parse_json_array text
      else parse_jsonl_rows text

  unfoldable pub parse_corpus_file : String → String → Result String ParsedCorpus
  parse_corpus_file filename text =
      if is_supported filename
      then if trim text == "" then err "File is empty" else parse_text filename text
      else err "File must be .jsonl, .ndjson, .json, or .csv"
