-- ===== src/Benchmark/Csv/RoundTrip.antt =====
-- Rows written by RFC 4180 are read back.
use Prim.Native.Char.{Char}
use Prim.Native.String.{[], ◌∷◌}
use text.Mathlib.TextLemmas.{append_assoc, append-nil, cons-append, nil-append}
use text.Mathlib.TextEquality.{Char-path}
use mathlib.Core.List
use pact_web.Prelude.{
  ◌≡◌, refl, ap, sym, ◌∙◌, if◌then◌else◌, true, false, Bool-cases, inl, inr, Option, some, List, [],
  ◌∷◌, ◌++◌, map, String, arith,
}
use pact_web.Prelude.Text.{◌<>◌}
use pact_web.Benchmark.Csv.{
  cursor, head, is_char, quote, comma, return, newline, quoted_step, plain_step, csv_step, csv_scan,
  flushed, parse_csv_rows,
}

-- A field's text with each quote doubled, then the closing quote, and the text behind it.
abbrev pub closed : String → String → String
closed [] rest = quote ∷ rest
closed (c ∷ s) rest =
    let more = closed s rest in if is_char (some c) quote then quote ∷ quote ∷ more else c ∷ more

-- A row: every field in quotes, commas between them, and a CRLF.
abbrev print_row : String → List String → String → String
print_row field [] rest = quote ∷ closed field (return ∷ newline ∷ rest)
print_row field (next ∷ fields) rest = quote ∷ closed field (comma ∷ print_row next fields rest)

-- Rows of at least one field: the first, and the others.
abbrev pub print_rows : List (String × List String) → String
print_rows [] = ""
print_rows ((field, fields) ∷ rows) = print_row field fields (print_rows rows)

abbrev row_of : String × List String → List String
row_of (field, fields) = field ∷ fields

is_char_lem : (c d : Char) → is_char (some c) d ≡ true → c ≡ d
is_char_lem c d h = Char-path c d (ground arith)

add_char : (field : String) (c : Char) (s : String) → (field <> (c ∷ [])) <> s ≡ field <> (c ∷ s)
add_char field c s =
    append_assoc field (c ∷ []) s
    ∙ ap (λ t. field <> t) (cons-append c [] s ∙ ap (λ t. c ∷ t) (nil-append s))

closing_step :
    (rows : List (List String)) (row : List String) (field : String) (next : Option Char)
    → is_char next quote ≡ false
    → csv_step (cursor rows row field true false) quote next ≡ cursor rows row field false false
unfolding csv_step quoted_step
closing_step rows row field next h = rw h refl

other_step :
    (rows : List (List String)) (row : List String) (field : String) (c : Char) (next : Option Char)
    → is_char (some c) quote ≡ false
    → csv_step (cursor rows row field true false) c next
      ≡ cursor rows row (field <> (c ∷ [])) true false
unfolding csv_step quoted_step
other_step rows row field c next h = rw h refl

doubled_quote :
    (rows : List (List String)) (row : List String) (field : String) (c : Char) (s rest : String)
    → is_char (some c) quote ≡ true
    → csv_scan (cursor rows row (field <> (quote ∷ [])) true false) (closed s rest)
      ≡ csv_scan (cursor rows row ((field <> (quote ∷ [])) <> s) false false) rest
    → csv_scan (cursor rows row field true false) (quote ∷ quote ∷ closed s rest)
      ≡ csv_scan (cursor rows row (field <> (c ∷ s)) false false) rest
unfolding csv_scan csv_step quoted_step
doubled_quote rows row field c s rest h e =
    e
    ∙ ap (λ f. csv_scan (cursor rows row f false false) rest)
        (add_char field quote s ∙ ap (λ d. field <> (d ∷ s)) (sym (is_char_lem c quote h)))

-- Behind a printed field, the cursor stands outside the quotes with the field read.
scan-closed :
    (rows : List (List String)) (row : List String) (field s rest : String)
    → is_char (head rest) quote ≡ false
    → csv_scan (cursor rows row field true false) (closed s rest)
      ≡ csv_scan (cursor rows row (field <> s) false false) rest
unfolding csv_scan
scan-closed rows row field [] rest open_end =
    rw (append-nil field)
      (ap (λ at. csv_scan at rest) (closing_step rows row field (head rest) open_end))
scan-closed rows row field (c ∷ s) rest open_end = elim (Bool-cases (is_char (some c) quote)) [
  | inl doubled ↦
      rw (doubled, closed)
        (doubled_quote rows row field c s rest doubled
          (scan-closed rows row (field <> (quote ∷ [])) s rest open_end))
  | inr single ↦
      rw (single, closed)
        (ap (λ at. csv_scan at (closed s rest))
            (other_step rows row field c (head (closed s rest)) single)
          ∙ scan-closed rows row (field <> (c ∷ [])) s rest open_end
          ∙ ap (λ f. csv_scan (cursor rows row f false false) rest) (add_char field c s))
]

opening_step :
    (rows : List (List String)) (row : List String) (next : Option Char)
    → csv_step (cursor rows row "" false false) quote next ≡ cursor rows row "" true false
unfolding csv_step plain_step
opening_step rows row next = refl

scan-opened :
    (rows : List (List String)) (row : List String) (field rest : String)
    → is_char (head rest) quote ≡ false
    → csv_scan (cursor rows row "" false false) (quote ∷ closed field rest)
      ≡ csv_scan (cursor rows row field false false) rest
unfolding csv_scan csv_step plain_step
scan-opened rows row field rest open_end =
    scan-closed rows row "" field rest open_end
    ∙ ap (λ f. csv_scan (cursor rows row f false false) rest) (nil-append field)

scan-comma :
    (rows : List (List String)) (row : List String) (field rest : String)
    → csv_scan (cursor rows row field false false) (comma ∷ rest)
      ≡ csv_scan (cursor rows (row ++ field ∷ []) "" false false) rest
unfolding csv_scan csv_step plain_step
scan-comma rows row field rest = refl

scan-line_end :
    (rows : List (List String)) (row : List String) (field rest : String)
    → csv_scan (cursor rows row field false false) (return ∷ newline ∷ rest)
      ≡ csv_scan (cursor (rows ++ (row ++ field ∷ []) ∷ []) [] "" false false) rest
unfolding csv_scan csv_step plain_step
scan-line_end rows row field rest = refl

scan-print_row :
    (rows : List (List String)) (row : List String) (field : String) (fields : List String)
    (rest : String)
    → csv_scan (cursor rows row "" false false) (print_row field fields rest)
      ≡ csv_scan (cursor (rows ++ (row ++ field ∷ fields) ∷ []) [] "" false false) rest
scan-print_row rows row field [] rest =
    scan-opened rows row field (return ∷ newline ∷ rest) refl ∙ scan-line_end rows row field rest
scan-print_row rows row field (next ∷ fields) rest =
    scan-opened rows row field (comma ∷ print_row next fields rest) refl
    ∙ scan-comma rows row field (print_row next fields rest)
    ∙ scan-print_row rows (row ++ field ∷ []) next fields rest
    ∙ ap (λ r. csv_scan (cursor (rows ++ r ∷ []) [] "" false false) rest)
        (List.append_assoc row (field ∷ []) (next ∷ fields))

scan-print_rows :
    (rows : List (List String)) (table : List (String × List String))
    → csv_scan (cursor rows [] "" false false) (print_rows table)
      ≡ cursor (rows ++ map row_of table) [] "" false false
unfolding csv_scan
scan-print_rows rows [] = ap (λ r. cursor r [] "" false false) (sym (List.append-nil rows))
scan-print_rows rows ((field, fields) ∷ table) =
    scan-print_row rows [] field fields (print_rows table)
    ∙ scan-print_rows (rows ++ (field ∷ fields) ∷ []) table
    ∙ ap (λ r. cursor r [] "" false false)
        (List.append_assoc rows ((field ∷ fields) ∷ []) (map row_of table))

-- Every table whose rows have at least one field is read back from its RFC 4180 form, in which
-- each field is quoted, a quote in it doubled, and each row ends with a CRLF: commas, quotes and
-- line ends inside fields included.
pub parse_csv_rows-print_rows :
    (table : List (String × List String)) → parse_csv_rows (print_rows table) ≡ map row_of table
unfolding parse_csv_rows flushed
parse_csv_rows-print_rows table = ap flushed (scan-print_rows [] table)
