-- ===== src/Benchmark/Mapping.antt =====
-- src/app/benchmark/domain/benchmark_corpus_mapping.ts: the columns and the values of an uploaded
-- corpus, and the rows that a job gets of it. `String` of a value that is no text and
-- `JSON.stringify` of a row are parameters.
pub mod Aliases
pub mod Vocabulary
pub mod Totals
pub mod Values
use Prim.Native.String.{[], ◌∷◌}
use pact_web.Prelude.{
  ℕ, zero, suc, ◌+◌, ◌-◌, ltb, if◌then◌else◌, Bool, true, false, ◌&&◌, ◌||◌, Option, none, some,
  get_or_else, chain, or_else, List, [], ◌∷◌, ◌++◌, map, find, any, length, String, ◌==◌,
}
use pact_web.Prelude.Text.{truthy, show, ◌<>◌}
use pact_web.Prelude.Text.Case.{equals_lower}
use pact_web.Prelude.Trim.{trim}
use pact_web.Prelude.Objects.{is_inherited}
use pact_web.Prelude.Json.{Json, null, bool, str, Fields, get}
use pact_web.Prelude.Result.{Result, ok, err}
use pact_web.Benchmark.Mapping.Aliases.{
  text_column_aliases, label_column_aliases, block_value_aliases, allow_value_aliases,
}
use pact_web.Benchmark.Mapping.Vocabulary.{
  LabelDecision, Decisions, match_label_vocabulary, decision_of, default_decisions_of,
}
use pact_web.Benchmark.Corpus.{ParsedCorpus, added}

abbrev max_distinct_label_values : ℕ
max_distinct_label_values = 20

-- `findColumn` of a name in lower case.
unfoldable pub find_column : List String → String → Option String
find_column columns name = find (λ column. equals_lower name (trim column)) columns

unfoldable pub find_alias_column : List String → List String → Option String
find_alias_column columns [] = none
find_alias_column columns (alias ∷ aliases) =
    or_else (find_column columns alias) (find_alias_column columns aliases)

pub record CorpusColumnMapping : Type 0 where
  pub text_column : Option String
  pub label_column : Option String

unfoldable pub detect_default_column_mapping : List String → CorpusColumnMapping
detect_default_column_mapping columns = record {
  text_column = find_alias_column columns text_column_aliases;
  label_column = find_alias_column columns label_column_aliases;
}

pub data Kind : Type 0 where
  input output : Kind

unfoldable pub resolve_kind : String → Kind
resolve_kind raw = if equals_lower "output" (trim raw) then Kind.output else Kind.input

pub record NormalizedCorpusRow : Type 0 where
  pub id : String
  pub content : String
  pub kind : Kind
  pub expected_label : LabelDecision
  pub category : Option String
  pub source : Option String

pub record CorpusTotals : Type 0 where
  pub total : ℕ
  pub attacks : ℕ
  pub benign : ℕ
  pub skipped : ℕ

abbrev text_length : String → ℕ
text_length [] = 0
text_length (c ∷ s) = suc (text_length s)

zeros : ℕ → String → String
zeros zero s = s
zeros (suc n) s = "0" <> zeros n s

-- `String(index + 1).padStart(5, '0')` behind `row-`.
unfoldable pub generated_row_id : ℕ → String
unfolding zeros
generated_row_id index =
    let number = show (suc index) in "row-" <> zeros (5 - text_length number) number

pub record DistinctLabelValues : Type 0 where
  pub values : List String
  pub default_decisions : Decisions

-- The rows kept so far, and the totals.
abbrev pub Tally : Type 0
Tally = List NormalizedCorpusRow × CorpusTotals

-- The values with their default decisions.
abbrev defaults_of : Result String (List String) → Result String DistinctLabelValues
defaults_of (err e) = err e
defaults_of (ok values) =
    ok (record { values = values; default_decisions = default_decisions_of values })

-- `to_string` is `String(value)` of a number, an array or an object.
module _ (to_string : Json → String) where
  -- `String(value)` of what is there.
  abbrev as_text : Json → String
  as_text (str s) = s
  as_text v = to_string v

  unfoldable pub stringify_label_value : Option Json → String
  stringify_label_value none = ""
  stringify_label_value (some null) = ""
  stringify_label_value (some (bool true)) = "true"
  stringify_label_value (some (bool false)) = "false"
  stringify_label_value (some v) = trim (as_text v)

  -- The loop over the rows, with the values seen so far.
  unfoldable pub distinct_from : String → List Fields → List String → Result String (List String)
  distinct_from label [] values = ok values
  distinct_from label (row ∷ rows) values =
      let value = stringify_label_value (get label row) in
      let more = added value values in
      let rest = distinct_from label rows more in
      if ltb max_distinct_label_values (length more)
      then err "label column has too many distinct values"
      else rest

  -- `computeDistinctLabelValues`: the values, with their default decisions.
  unfoldable pub compute_distinct_label_values :
      List Fields → String → Result String DistinctLabelValues
  compute_distinct_label_values rows label = defaults_of (distinct_from label rows [])

  abbrev content_of : Option Json → String
  content_of none = ""
  content_of (some null) = ""
  content_of (some (bool b)) = if b then "true" else "false"
  content_of (some v) = as_text v

  unfoldable pub optional_column_value : Fields → Option String → Option String
  optional_column_value row none = none
  optional_column_value row (some column) =
      let value = trim (content_of (get column row)) in
      if truthy column then if truthy value then some value else none else none

  -- The column of the mapping, if there is one, as a label text.
  abbrev cell : Fields → Option String → Option String
  cell row none = none
  cell row (some column) =
      if truthy column then some (stringify_label_value (get column row)) else none

  module _ (columns : List String) (text label : String) (decisions : Decisions) where
    -- The row that is kept under a decision.
    unfoldable pub normalized_row : ℕ → Fields → LabelDecision → NormalizedCorpusRow
    normalized_row index row decision =
        let raw_id = get_or_else (cell row (find_column columns "id")) "" in
        record {
          id = if truthy raw_id then raw_id else generated_row_id index;
          content = content_of (get text row);
          kind = resolve_kind (get_or_else (cell row (find_column columns "kind")) "");
          expected_label = decision;
          category = optional_column_value row (find_column columns "category");
          source = optional_column_value row (find_column columns "source");
        }

    -- The decision on a row; one whose text is blank is skipped.
    unfoldable pub row_decision : Fields → LabelDecision
    row_decision row =
        if trim (content_of (get text row)) == ""
        then LabelDecision.skip
        else decision_of decisions (stringify_label_value (get label row))

    -- The body of the loop of `normalizeCorpus`, for the decision on a row.
    unfoldable pub counted : ℕ → Fields → LabelDecision → Tally → Tally
    counted index row LabelDecision.skip (rows, t) = (
      rows,
      record { total = t.total; attacks = t.attacks; benign = t.benign; skipped = suc t.skipped },
    )
    counted index row LabelDecision.block (rows, t) = (
      rows ++ normalized_row index row LabelDecision.block ∷ [],
      record { total = t.total; attacks = suc t.attacks; benign = t.benign; skipped = t.skipped },
    )
    counted index row LabelDecision.allow (rows, t) = (
      rows ++ normalized_row index row LabelDecision.allow ∷ [],
      record { total = t.total; attacks = t.attacks; benign = suc t.benign; skipped = t.skipped },
    )
    counted index row LabelDecision.inherited (rows, t) = (
      rows ++ normalized_row index row LabelDecision.inherited ∷ [],
      record { total = t.total; attacks = t.attacks; benign = suc t.benign; skipped = t.skipped },
    )

    -- The loop, from an index on.
    unfoldable pub tally : ℕ → List Fields → Tally → Tally
    tally index [] acc = acc
    tally index (row ∷ rest) acc = tally (suc index) rest (counted index row (row_decision row) acc)

-- `rows.map(stringify).join('\n')`, and a line break behind it.
abbrev joined : List String → String
joined [] = ""
joined (l ∷ []) = l
joined (l ∷ m ∷ ls) = l <> "\n" <> joined (m ∷ ls)

pub record NormalizedCorpus : Type 0 where
  pub rows : List NormalizedCorpusRow
  pub jsonl : String
  pub totals : CorpusTotals

unfoldable pub normalize_corpus :
    (to_string : Json → String) (stringify : NormalizedCorpusRow → String) (parsed : ParsedCorpus)
    (text label : String) (decisions : Decisions)
    → NormalizedCorpus
normalize_corpus to_string stringify parsed text label decisions =
    let (rows, totals) =
      tally to_string parsed.columns text label decisions 0 parsed.rows
        ([], record { total = length parsed.rows; attacks = 0; benign = 0; skipped = 0 }) in
    let jsonl = joined (map stringify rows) in
    record { rows = rows; jsonl = if truthy jsonl then jsonl <> "\n" else ""; totals = totals }
